-- ===== src/Dfu/Safety.antt =====
-- Every sequence of events keeps the calls of the application within its firmware.
use usbdevice.Base.{
  sym, refl, ◌∙◌, ℕ, zero, suc, ◌≡◌, Bool, true, List, [], ◌∷◌, arith, if◌then◌else◌, ◌==◌, ◌&&◌,
  Bool-cases, inl, inr,
}
use usbdevice.Device.{ReturnType, e_ok, Platform, Device, type_class}
use usbdevice.Control.{ctrl_send_data}
use usbdevice.Dfu.{
  State, dnload_busy, manifest, manifest_sync, manifest_wait_reset, error_none, reboot,
  req_getstatus, Dfu, Ctx, on_itf,
}
use usbdevice.Dfu.Setup.{call_request, check, class_request, setup_stage, send_func_desc, is_valid}
use usbdevice.Dfu.Stages.{
  init, deinit, ask_manifest, erase_first, write_block, do_download, do_manifest, work, settle,
  data_stage,
}
use usbdevice.Dfu.Requests.{abort}
use usbdevice.Dfu.Events.{Event, setup_event, data_event, init_event, deinit_event, step, run}
use usbdevice.Dfu.Machine.{is_valid-accepts, accepts}
use usbdevice.Dfu.Region.{
  InRegion, download-InRegion, upload-InRegion, get_status-InRegion, refuse-InRegion,
  get_state-InRegion, detach-InRegion, abort-InRegion, clear_status-InRegion,
}

module _ (p : Platform) (tolerant : Bool) where
  not-accepts :
      (n : ℕ) (s : State) → accepts (suc (suc (suc (suc (suc (suc (suc n))))))) s ≡ true → ⊥
  not-accepts n s h = ground arith

  call-InRegion :
      (q : ℕ) (c : Ctx)
      → accepts q c.itf.state ≡ true
      → InRegion p c.itf
      → InRegion p (call_request p tolerant q c).1.itf
  unfolding call_request
  call-InRegion zero c a v = detach-InRegion p tolerant c (ground arith) v
  call-InRegion (suc zero) c a v = download-InRegion p tolerant c (ground arith) v
  call-InRegion (suc (suc zero)) c a v = upload-InRegion p tolerant c (ground arith) v
  call-InRegion (suc (suc (suc zero))) c a v = get_status-InRegion p tolerant c v
  call-InRegion (suc (suc (suc (suc zero)))) c a v =
      clear_status-InRegion p tolerant c (ground arith) v
  call-InRegion (suc (suc (suc (suc (suc zero))))) c a v = get_state-InRegion p tolerant c v
  call-InRegion (suc (suc (suc (suc (suc (suc zero)))))) c a v =
      abort-InRegion p tolerant c (ground arith) v
  call-InRegion (suc (suc (suc (suc (suc (suc (suc n))))))) c a v =
      absurd (not-accepts n c.itf.state a)

  check-InRegion : (v : ReturnType × Ctx) → InRegion p v.1.itf → InRegion p (check v).1.itf
  check-InRegion (e_ok, c) h = h
  check-InRegion (_, c) h = refuse-InRegion p tolerant c h

  class_request-InRegion :
      (c : Ctx) → InRegion p c.itf → InRegion p (class_request p tolerant c).1.itf
  unfolding class_request
  class_request-InRegion c v = elim (Bool-cases (is_valid c.dev.setup.request c.itf.state)) [
    | inl ok ↦ rw ok (
        check-InRegion _ (
          call-InRegion c.dev.setup.request c
            (sym (is_valid-accepts c.dev.setup.request c.itf.state) ∙ ok) v))
    | inr bad ↦ rw bad (refuse-InRegion p tolerant c v)
  ]

  pub setup_stage-InRegion :
      (c : Ctx) → InRegion p c.itf → InRegion p (setup_stage p tolerant c).1.itf
  unfolding setup_stage send_func_desc ctrl_send_data
  setup_stage-InRegion c v = ground (arith, class_request-InRegion c v)

  pub settle-InRegion : (i : Dfu) → InRegion p i → InRegion p (settle i)
  unfolding settle
  settle-InRegion i v = ground arith

  do_download-InRegion :
      (buf : List ℕ) (i : Dfu)
      → i.state ≡ dnload_busy
      → InRegion p i
      → InRegion p (do_download buf i)
  unfolding do_download write_block erase_first
  do_download-InRegion buf i s v = ground arith

  ask-InRegion : (i : Dfu) → i.state ≡ manifest → InRegion p i → InRegion p (ask_manifest i)
  ask-InRegion i m v = ground arith

  again-InRegion :
      (i : Dfu)
      → i.state ≡ manifest
      → InRegion p i
      → InRegion p
          (record (ask_manifest i) { block_length = 0; poll_timeout = 0; state = manifest_sync })
  again-InRegion i m v = ground arith

  pub wait-InRegion :
      (i : Dfu)
      → i.state ≡ manifest
      → InRegion p i
      → InRegion p (record (ask_manifest i) { state = manifest_wait_reset })
  wait-InRegion i m v = ground arith

  pub reboot-InRegion :
      (i : Dfu)
      → InRegion p i
      → InRegion p (record i { log = if i.has_reboot then reboot ∷ i.log else i.log })
  reboot-InRegion i v = ground arith

  do_manifest-InRegion :
      (shutdown : Ctx → Ctx)
      → ((c : Ctx) → InRegion p c.itf → InRegion p (shutdown c).itf)
      → (c : Ctx) → c.itf.state ≡ manifest
      → InRegion p c.itf
      → InRegion p (do_manifest tolerant shutdown c).itf
  unfolding do_manifest
  do_manifest-InRegion shutdown keep c s v =
      let done = on_itf ask_manifest c in
      let off = shutdown (on_itf (λ i. record i { state = manifest_wait_reset }) done) in
      elim (Bool-cases (done.itf.status == error_none)) [
        | inl good ↦ rw good (elim (Bool-cases tolerant) [
          | inl t ↦ rw t (again-InRegion c.itf s v)
          | inr t ↦ rw t (reboot-InRegion off.itf (keep _ (wait-InRegion c.itf s v)))
        ])
        | inr bad ↦ rw bad (ask-InRegion c.itf s v)
      ]

  pub init-InRegion : (c : Ctx) → InRegion p c.itf → InRegion p (init c).itf
  unfolding init abort
  init-InRegion c v = ground arith

  pub deinit-InRegion : (c : Ctx) → InRegion p c.itf → InRegion p (deinit c).itf
  unfolding deinit
  deinit-InRegion c v = ground arith

  module _ (shutdown : Ctx → Ctx)
      (keep : (c : Ctx) → InRegion p c.itf → InRegion p (shutdown c).itf) where
    work-InRegion :
        (s : State) (c : Ctx)
        → c.itf.state ≡ s
        → InRegion p c.itf
        → InRegion p (work tolerant shutdown s c).itf
    unfolding work
    work-InRegion dnload_busy c e v = do_download-InRegion c.dev.ctrl_data c.itf e v
    work-InRegion manifest c e v = do_manifest-InRegion shutdown keep c e v
    work-InRegion _ c e v = v

    pub data_stage-InRegion :
        (c : Ctx) → InRegion p c.itf → InRegion p (data_stage tolerant shutdown c).itf
    unfolding data_stage
    data_stage-InRegion c v =
        let s = c.dev.setup in
        elim (Bool-cases ((s.type == type_class) && (s.request == req_getstatus))) [
          | inl yes' ↦ rw yes' (settle-InRegion _ (work-InRegion c.itf.state c refl v))
          | inr not' ↦ rw not' (settle-InRegion _ v)
        ]

    step-InRegion :
        (e : Event) (c : Ctx) → InRegion p c.itf → InRegion p (step p tolerant shutdown e c).itf
    unfolding step
    step-InRegion setup_event c v = setup_stage-InRegion c v
    step-InRegion data_event c v = data_stage-InRegion c v
    step-InRegion init_event c v = init-InRegion c v
    step-InRegion deinit_event c v = deinit-InRegion c v

    -- Whatever the host sends and in whatever order, and whatever the application answers: the
    -- interface asks the application to write and read within its firmware only, and to erase at its
    -- start only. (If shutting the device down respects that, and the firmware lies below the end of
    -- the address space by at least the size of a block.)
    pub run-InRegion :
        (es : List (Event × Device)) (c : Ctx)
        → InRegion p c.itf
        → InRegion p (run p tolerant shutdown es c).itf
    unfolding run
    run-InRegion [] c v = v
    run-InRegion ((e, d) ∷ es) c v =
        run-InRegion es (step p tolerant shutdown e (record c { dev = d }))
          (step-InRegion e (record c { dev = d }) v)
