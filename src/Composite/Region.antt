-- ===== src/Composite/Region.antt =====
-- The upgrade interface of a composite device stays within its firmware.
use usbdevice.Base.{update, ℕ, ◌≡◌, arith, Bool, List, Option, Bool-cases, inl, inr}
use usbdevice.Device.{Platform, EpRef}
use usbdevice.World.{
  World, Class, safe_callback, safe_ep_callback, if_class_init, if_class_deinit,
  if_class_setup_stage, if_class_data_stage, if_class_in_data, if_class_out_data,
}
use usbdevice.Callback.{deinit}
use usbdevice.Bus.{set_body, Reach}
use usbdevice.Bus.Bodies.{
  AllBodies, KeepsBodies, set_body-AllBodies, if_config_holds, reach-AllBodies,
}
use usbdevice.Dfu.{Dfu, manifest, manifest_wait_reset}
use usbdevice.Dfu.Region.{InRegion}
use usbdevice.Dfu.Safety.{
  init-InRegion, deinit-InRegion, setup_stage-InRegion, data_stage-InRegion, settle-InRegion,
  wait-InRegion, reboot-InRegion,
}
use usbdevice.Dfu.Stages.{ask_manifest, settle}
use usbdevice.Composite.{
  leaves, Handle, dfu_handle, rodfu_handle, msc_handle, Fills, fills_storage, dfu_at, on_dfu,
  at_dfu, log_reboot, class_init, class_deinit, class_setup_stage, class_data_stage, class_out_data,
  class_in_data, stoppable, classes, leave,
}

-- Every call of the application by an upgrade handle lies in its firmware.
abbrev pub HandleInRegion : Platform → Handle → Type 0
HandleInRegion p (dfu_handle i) = InRegion p i
HandleInRegion p _ = Unit

module _ (p : Platform) (tolerant : Bool) (names : Handle → Option (List ℕ))
    (c : Class Handle) where
  abbrev All : World Handle → Type 0
  All w = AllBodies (HandleInRegion p) w

  -- The new device of a function does not matter.
  stored :
      (r : ℕ) (b : Handle) (w : World Handle)
      → HandleInRegion p b
      → All w
      → (q : ℕ) → HandleInRegion p (update w.itf r (record (w.itf r) { body = b }) q).body
  stored r b w k h = set_body-AllBodies (HandleInRegion p) r b w k h

  init-All :
      (b : Handle) (r : ℕ) (w : World Handle)
      → HandleInRegion p b
      → All w
      → All (safe_callback c (class_init p tolerant names b) r w)
  unfolding class_init
  init-All (dfu_handle i) r w k h = stored r _ w (init-InRegion p tolerant (dfu_at i w) k) h
  init-All (rodfu_handle i) r w k h = h
  init-All (msc_handle i) r w k h = stored r _ w tt h

  deinit-All :
      (b : Handle) (r : ℕ) (w : World Handle)
      → HandleInRegion p b
      → All w
      → All (safe_callback c (class_deinit p tolerant names b) r w)
  unfolding class_deinit
  deinit-All (dfu_handle i) r w k h = stored r _ w (deinit-InRegion p tolerant (dfu_at i w) k) h
  deinit-All (rodfu_handle i) r w k h = h
  deinit-All (msc_handle i) r w k h = stored r _ w tt h

  setup-All :
      (b : Handle) (r : ℕ) (w : World Handle)
      → HandleInRegion p b
      → All w
      → All (class_setup_stage p tolerant names b r w).1
  unfolding class_setup_stage
  setup-All (dfu_handle i) r w k h = stored r _ w (setup_stage-InRegion p tolerant (dfu_at i w) k) h
  setup-All (rodfu_handle i) r w k h = stored r _ w tt h
  setup-All (msc_handle i) r w k h = stored r _ w tt h

  out-All :
      (b : Handle) (r : ℕ) (e : EpRef) (w : World Handle)
      → All w
      → All (safe_ep_callback c (class_out_data p tolerant names b) r e w)
  unfolding class_out_data
  out-All (dfu_handle i) r e w h = h
  out-All (rodfu_handle i) r e w h = h
  out-All (msc_handle i) r e w h = stored r _ w tt h

  in-All :
      (b : Handle) (r : ℕ) (e : EpRef) (w : World Handle)
      → All w
      → All (safe_ep_callback c (class_in_data p tolerant names b) r e w)
  unfolding class_in_data
  in-All (dfu_handle i) r e w h = h
  in-All (rodfu_handle i) r e w h = h
  in-All (msc_handle i) r e w h = stored r _ w tt h

  -- A change of the upgrade handle that keeps its region.
  at_dfu-All :
      (f : Dfu → Dfu)
      → ((i : Dfu) → InRegion p i → InRegion p (f i))
      → (r : ℕ) (w : World Handle) → All w
      → All (at_dfu f r w)
  at_dfu-All f keep r w h =
      set_body-AllBodies (HandleInRegion p) r _ w (kept (w.itf r).body (h r)) h
    where
      kept : (b : Handle) → HandleInRegion p b → HandleInRegion p (on_dfu f b)
      kept (dfu_handle i) k = keep i k
      kept (rodfu_handle i) k = k
      kept (msc_handle i) k = k

module _ (p : Platform) (tolerant : Bool) (names : Handle → Option (List ℕ)) where
  stoppable-KeepsBodies : KeepsBodies (stoppable p tolerant names) (HandleInRegion p)
  unfolding if_class_init if_class_deinit if_class_setup_stage if_class_data_stage if_class_in_data
      if_class_out_data
  stoppable-KeepsBodies = record {
    init =
        λ r w h. init-All p tolerant names (stoppable p tolerant names) (w.itf r).body r w (h r) h;
    deinit = λ r w h.
        deinit-All p tolerant names (stoppable p tolerant names) (w.itf r).body r w (h r) h;
    setup_stage =
        λ r w h. setup-All p tolerant names (stoppable p tolerant names) (w.itf r).body r w (h r) h;
    data_stage = λ r w h. h;
    in_data =
        λ r e w h. in-All p tolerant names (stoppable p tolerant names) (w.itf r).body r e w h;
    out_data =
        λ r e w h. out-All p tolerant names (stoppable p tolerant names) (w.itf r).body r e w h;
  }

  leave-All :
      (r : ℕ) (i : Dfu) (w : World Handle)
      → i.state ≡ manifest
      → InRegion p i
      → AllBodies (HandleInRegion p) w
      → AllBodies (HandleInRegion p) (leave p tolerant names r i w)
  unfolding leave deinit
  leave-All r i w m k h =
      let waiting = record (ask_manifest i) { state = manifest_wait_reset } in
      let v = set_body r (dfu_handle waiting) w in
      let stop = stoppable p tolerant names in
      let off = deinit p stop v in
      let hv =
        set_body-AllBodies (HandleInRegion p) r (dfu_handle waiting) w
          (wait-InRegion p tolerant i m k) h in
      let ho = if_config_holds p stop (HandleInRegion p) stoppable-KeepsBodies 0 v hv in
      at_dfu-All p tolerant names stop settle (settle-InRegion p tolerant) r
        (at_dfu log_reboot r off)
        (at_dfu-All p tolerant names stop log_reboot (reboot-InRegion p tolerant) r off ho)

  data_stage-All :
      (b : Handle) (r : ℕ) (w : World Handle)
      → HandleInRegion p b
      → AllBodies (HandleInRegion p) w
      → AllBodies
          (HandleInRegion p)
          (safe_callback (classes p tolerant names) (class_data_stage p tolerant names b) r w)
  unfolding class_data_stage
  data_stage-All (dfu_handle i) r w k h =
      elim (Bool-cases (leaves p tolerant names i w.dev.setup)) [
        | inl e ↦ rw e (leave-All r i w (ground (arith, e)) k h)
        | inr e ↦ rw e (
            stored p tolerant names (classes p tolerant names) r _ w
              (data_stage-InRegion p tolerant (λ c. c) (λ c v. v) (dfu_at i w) k) h)
      ]
  data_stage-All (rodfu_handle i) r w k h = h
  data_stage-All (msc_handle i) r w k h = h

  classes-KeepsBodies : KeepsBodies (classes p tolerant names) (HandleInRegion p)
  unfolding if_class_init if_class_deinit if_class_setup_stage if_class_data_stage if_class_in_data
      if_class_out_data
  classes-KeepsBodies = record {
    init = λ r w h. init-All p tolerant names (classes p tolerant names) (w.itf r).body r w (h r) h;
    deinit =
        λ r w h. deinit-All p tolerant names (classes p tolerant names) (w.itf r).body r w (h r) h;
    setup_stage =
        λ r w h. setup-All p tolerant names (classes p tolerant names) (w.itf r).body r w (h r) h;
    data_stage = λ r w h. data_stage-All (w.itf r).body r w (h r) h;
    in_data = λ r e w h. in-All p tolerant names (classes p tolerant names) (w.itf r).body r e w h;
    out_data =
        λ r e w h. out-All p tolerant names (classes p tolerant names) (w.itf r).body r e w h;
  }

  Fills-InRegion : (a b : Handle) → Fills a b → HandleInRegion p a → HandleInRegion p b
  Fills-InRegion a b (fills_storage i x y) h = h

  -- On a composite device of upgrade interfaces and mass storages, whatever the host sends to which
  -- interface, and whatever resets and transfers come between, every call of the application by an
  -- upgrade interface lies in its firmware. (If the firmware lies below the end of the address space by
  -- at least the size of a block, and the device starts so.)
  pub reach-InRegion :
      {w v : World Handle}
      → AllBodies (HandleInRegion p) w
      → Reach p (classes p tolerant names) Fills w v
      → AllBodies (HandleInRegion p) v
  reach-InRegion h r =
      reach-AllBodies p (classes p tolerant names) (HandleInRegion p) classes-KeepsBodies Fills
        Fills-InRegion h r
