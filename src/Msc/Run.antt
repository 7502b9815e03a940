-- ===== src/Msc/Run.antt =====
-- Every sequence of events keeps the calls of the logical units within their blocks.
use usbdevice.Base.{
  ℕ, zero, suc, ◌+◌, ◌<◌, ◌≡◌, ◌∙◌, true, refl, ap, subst, List, [], ◌∷◌, arith, leb, get_or,
  Bool-cases, inl, inr,
}
use usbdevice.Device.{Platform, Device, EpRef, get_ep}
use usbdevice.Msc.{
  MscState, command_out, data_out, CommandBlock, LogicalUnit, Msc, MscCtx, be16, be32, word_mod,
}
use usbdevice.Msc.Blocks.{
  send_csw, receive_cbw, in_data, put_sense_code, on_msc, block_addr, transfer_len,
}
use usbdevice.Msc.Commands.{
  process_command, send_response, route_command, verify10, inquiry_command, read_format_capacity,
  test_unit_ready, request_sense, start_stop_unit, prevent_allow_medium_removal, mode_sense6,
  mode_sense10, read_capacity10,
}
use usbdevice.Msc.Transport.{
  out_data, setup_stage, take_command, take_data, close_command, reject_cbw, open_status,
  is_valid_cbw,
}
use usbdevice.Msc.Mount.{init, deinit, for_units, init_unit, deinit_unit}
use usbdevice.Msc.Units.{out_data-lus, in_data-lus, setup_stage-lus, init-lus, deinit-lus}
use usbdevice.Msc.Medium.{
  is_moving, IsSized, InMedium, AllInUnit, read10-InMedium, write10-InMedium,
  process_write-InMedium, in_data-InMedium,
}

-- The callbacks of the class. With an OUT event comes what the driver has received: a command wrapper
-- if one was waited for, or the bytes of a block if one was.
pub data MscEvent : Type 0 where
  out_event : EpRef → CommandBlock → List ℕ → MscEvent
  in_event setup_event init_event deinit_event : MscEvent

abbrev received : MscState → CommandBlock → List ℕ → Msc → Msc
received command_out b bytes i = record i { cbw = b }
received data_out b bytes i = record i { buffer = bytes }
received _ b bytes i = i

module _ (p : Platform) where
  unfoldable pub step : MscEvent → MscCtx → MscCtx
  step (out_event ep b bytes) c = out_data p ep (on_msc (received c.itf.state b bytes) c)
  step in_event c = in_data p c
  step setup_event c = (setup_stage p c).1
  step init_event c = init p c
  step deinit_event c = deinit p c

  -- Before each event the device is changed at will: by the host, by the driver and by the other
  -- interfaces.
  unfoldable pub run : List (MscEvent × Device) → MscCtx → MscCtx
  run [] c = c
  run ((e, d) ∷ es) c = run es (step e (record c { dev = d }))

  -- A command for one of these units, whose block address and length do not wrap around.
  abbrev pub Fits : (ℕ → LogicalUnit) → MscEvent → Type 0
  Fits lus (out_event ep b bytes) = IsSized (lus b.lun) × (be32 b.cb 2 + be16 b.cb 7 < word_mod)
  Fits lus _ = Unit

  abbrev pub AllFit : (ℕ → LogicalUnit) → List (MscEvent × Device) → Type 0
  AllFit lus [] = Unit
  AllFit lus ((e, d) ∷ es) = Fits lus e × AllFit lus es

  route_command-InMedium :
      (op : ℕ) (c : MscCtx)
      → c.itf.state ≡ command_out
      → block_addr c.itf + transfer_len c.itf < word_mod
      → InMedium c.itf
      → InMedium (route_command p op c).1.itf
  unfolding route_command verify10 inquiry_command read_format_capacity test_unit_ready
      request_sense start_stop_unit prevent_allow_medium_removal mode_sense6 mode_sense10
      read_capacity10 put_sense_code
  route_command-InMedium op c s w v =
      ground
        (arith, read10-InMedium p c (ap is_moving s) w v, write10-InMedium p c (ap is_moving s) w v)

  send_response-InMedium : (v : ℕ × MscCtx) → InMedium v.1.itf → InMedium (send_response p v).itf
  unfolding send_response
  send_response-InMedium (len, c) v = ground arith

  close_command-InMedium : (c : MscCtx) → InMedium c.itf → InMedium (close_command p c).itf
  unfolding close_command send_csw receive_cbw
  close_command-InMedium c v = ground arith

  take_command-InMedium :
      (len : ℕ) (c : MscCtx)
      → c.itf.state ≡ command_out
      → block_addr c.itf + transfer_len c.itf < word_mod
      → InMedium c.itf
      → InMedium (take_command p len c).itf
  unfolding take_command process_command reject_cbw open_status put_sense_code
  take_command-InMedium len c s w v =
      let o = on_msc open_status c in
      let op = get_or o.itf.cbw.cb 0 0 in
      let opened : InMedium o.itf = ground arith in
      elim (Bool-cases (is_valid_cbw len c.itf)) [
        | inl e ↦ rw e (
            close_command-InMedium _
              (send_response-InMedium _ (route_command-InMedium op o s w opened)))
        | inr e ↦ rw e (ground arith)
      ]

  take_data-InMedium :
      (c : MscCtx) → is_moving c.itf.state ≡ true → InMedium c.itf → InMedium (take_data p c).itf
  unfolding take_data send_csw receive_cbw
  take_data-InMedium c s v = ground (arith, process_write-InMedium p c s v)

  out_data-InMedium :
      (s : MscState) (ep : EpRef) (c : MscCtx)
      → c.itf.state ≡ s
      → (c.itf.state ≡ command_out → block_addr c.itf + transfer_len c.itf < word_mod)
      → InMedium c.itf
      → InMedium (out_data p ep c).itf
  unfolding out_data send_csw receive_cbw
  out_data-InMedium command_out ep c s w v =
      ground (arith, take_command-InMedium (get_ep ep c.dev).transfer_length c s (w s) v)
  out_data-InMedium data_out ep c s w v = ground (arith, take_data-InMedium c)
  out_data-InMedium _ ep c s w v = ground arith

  received-InMedium :
      (s : MscState) (b : CommandBlock) (bytes : List ℕ) (i : Msc)
      → i.state ≡ s
      → IsSized (i.lus b.lun)
      → InMedium i
      → InMedium (received s b bytes i)
  received-InMedium command_out b bytes i e z v = ground arith
  received-InMedium data_out b bytes i e z v = ground arith
  received-InMedium _ b bytes i e z v = v

  received_fits :
      (s : MscState) (b : CommandBlock) (bytes : List ℕ) (i : Msc)
      → i.state ≡ s
      → be32 b.cb 2 + be16 b.cb 7 < word_mod
      → (received s b bytes i).state ≡ command_out
      → block_addr (received s b bytes i) + transfer_len (received s b bytes i) < word_mod
  received_fits command_out b bytes i e w h = w
  received_fits _ b bytes i e w h = ground arith

  for_units-InMedium :
      (body : ℕ → Msc → Msc)
      → ((lun : ℕ) (i : Msc) → InMedium i → InMedium (body lun i))
      → (fuel lun : ℕ) (i : Msc) → InMedium i
      → InMedium (for_units body fuel lun i)
  unfolding for_units
  for_units-InMedium body keep zero lun i v = v
  for_units-InMedium body keep (suc fuel) lun i v = elim (Bool-cases (leb lun i.max_lun)) [
    | inl e ↦ rw e (for_units-InMedium body keep fuel (lun + 1) (body lun i) (keep lun i v))
    | inr e ↦ rw e v
  ]

  init_unit-InMedium : (lun : ℕ) (i : Msc) → InMedium i → InMedium (init_unit lun i)
  unfolding init_unit
  init_unit-InMedium lun i v = ground arith

  deinit_unit-InMedium : (lun : ℕ) (i : Msc) → InMedium i → InMedium (deinit_unit lun i)
  unfolding deinit_unit
  deinit_unit-InMedium lun i v = ground arith

  init-InMedium : (c : MscCtx) → InMedium c.itf → InMedium (init p c).itf
  unfolding init receive_cbw
  init-InMedium c v = for_units-InMedium init_unit init_unit-InMedium 256 0 _ (ground arith)

  deinit-InMedium : (c : MscCtx) → InMedium c.itf → InMedium (deinit p c).itf
  unfolding deinit
  deinit-InMedium c v = for_units-InMedium deinit_unit deinit_unit-InMedium 256 0 _ v

  setup-InMedium : (c : MscCtx) → InMedium c.itf → InMedium (setup_stage p c).1.itf
  unfolding setup_stage
  setup-InMedium c v = ground arith

  received-lus :
      (s : MscState) (b : CommandBlock) (bytes : List ℕ) (i : Msc)
      → (received s b bytes i).lus ≡ i.lus
  received-lus command_out b bytes i = refl
  received-lus data_out b bytes i = refl
  received-lus _ b bytes i = refl

  step-lus : (e : MscEvent) (c : MscCtx) → (step e c).itf.lus ≡ c.itf.lus
  unfolding step
  step-lus (out_event ep b bytes) c = out_data-lus p ep _ ∙ received-lus c.itf.state b bytes c.itf
  step-lus in_event c = in_data-lus p c
  step-lus setup_event c = setup_stage-lus p c
  step-lus init_event c = init-lus p c
  step-lus deinit_event c = deinit-lus p c

  step-InMedium :
      (e : MscEvent) (c : MscCtx) → Fits c.itf.lus e → InMedium c.itf → InMedium (step e c).itf
  unfolding step
  step-InMedium (out_event ep b bytes) c f v =
      let s = c.itf.state in
      out_data-InMedium (received s b bytes c.itf).state ep (on_msc (received s b bytes) c) refl
        (received_fits s b bytes c.itf refl f.1) (received-InMedium s b bytes c.itf refl f.0 v)
  step-InMedium in_event c f v = in_data-InMedium p c v
  step-InMedium setup_event c f v = setup-InMedium c v
  step-InMedium init_event c f v = init-InMedium c v
  step-InMedium deinit_event c f v = deinit-InMedium c v

  -- Whatever the host sends and in whatever order, and whatever the logical units answer: the class has
  -- them read and write their own blocks only. (For commands whose block address and length do not wrap
  -- around in 32 bits, and units whose sizes in bytes fit in 32 bits.)
  pub run-InMedium :
      (es : List (MscEvent × Device)) (c : MscCtx)
      → AllFit c.itf.lus es
      → InMedium c.itf
      → AllInUnit c.itf.lus (run es c).itf.log
  unfolding run
  run-InMedium [] c f v = v.inside
  run-InMedium ((e, d) ∷ es) c f v =
      let before = record c { dev = d } in
      let next = step e before in
      let same : next.itf.lus ≡ c.itf.lus = step-lus e before in
      let rest = run-InMedium es next (rw same f.1) (step-InMedium e before f.0 v) in
      subst (λ lus. AllInUnit lus (run es next).itf.log) same rest
