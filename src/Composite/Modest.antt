-- ===== src/Composite/Modest.antt =====
-- The classes of the composite device are as the stack relies on them to be.
use usbdevice.Base.{if_holds, ℕ, ◌<◌, ◌⊎◌, inl, inr, arith, Bool, List, Option}
use usbdevice.Device.{Platform, Device, EpRef}
use usbdevice.World.{
  World, Class, safe_callback, safe_ep_callback, if_class_init, if_class_deinit,
  if_class_setup_stage, if_class_data_stage, if_class_in_data, if_class_out_data,
}
use usbdevice.Callback.{deinit}
use usbdevice.Bus.{set_body}
use usbdevice.Bus.Kept.{
  KeepsMount, KeepsMount-refl, Kept, Kept-refl, Kept-trans, Closed, closed_before, closed_after,
  IsModest,
}
use usbdevice.Bus.Config.{deinit-Closed}
use usbdevice.Dfu.{Dfu, manifest_wait_reset}
use usbdevice.Dfu.Stages.{ask_manifest}
use usbdevice.Composite.{
  leaves, Handle, dfu_handle, rodfu_handle, msc_handle, dfu_at, msc_at, at_dfu, log_reboot,
  class_init, class_deinit, class_setup_stage, class_data_stage, class_out_data, class_in_data,
  stoppable, classes, leave,
}
use usbdevice.Composite.Storage.{
  out_data-mount, in_data-mount, setup_stage-mount, init-mount, deinit-mount,
}
use usbdevice.Composite.Upgrade.{
  dfu_init-mount, dfu_deinit-mount, setup-mount, ro_setup-mount, data-mount,
}

-- A function of a class that leaves the mount alone leaves all settings alone.
stored-Kept :
    (r : ℕ) (b : Handle) (w : World Handle) (d : Device)
    → KeepsMount w.dev d
    → Kept w (set_body r b (record w { dev = d }))
stored-Kept r b w d h = record { mount = h; alts = λ q. ground arith; counts = λ q. ground arith }

body-Kept : (r : ℕ) (b : Handle) (w : World Handle) → Kept w (set_body r b w)
body-Kept r b w = stored-Kept r b w w.dev (KeepsMount-refl w.dev)

module _ (p : Platform) (tolerant : Bool) (names : Handle → Option (List ℕ))
    (c : Class Handle) where
  init-Kept :
      (b : Handle) (r : ℕ) (w : World Handle)
      → Kept w (safe_callback c (class_init p tolerant names b) r w)
  unfolding class_init
  init-Kept (dfu_handle i) r w = stored-Kept r _ w _ (dfu_init-mount (dfu_at i w))
  init-Kept (rodfu_handle i) r w = Kept-refl w
  init-Kept (msc_handle i) r w = stored-Kept r _ w _ (init-mount p (msc_at i w))

  deinit-Kept :
      (b : Handle) (r : ℕ) (w : World Handle)
      → Kept w (safe_callback c (class_deinit p tolerant names b) r w)
  unfolding class_deinit
  deinit-Kept (dfu_handle i) r w = stored-Kept r _ w _ (dfu_deinit-mount (dfu_at i w))
  deinit-Kept (rodfu_handle i) r w = Kept-refl w
  deinit-Kept (msc_handle i) r w = stored-Kept r _ w _ (deinit-mount p (msc_at i w))

  setup-Kept :
      (b : Handle) (r : ℕ) (w : World Handle) → Kept w (class_setup_stage p tolerant names b r w).1
  unfolding class_setup_stage
  setup-Kept (dfu_handle i) r w = stored-Kept r _ w _ (setup-mount p tolerant (dfu_at i w))
  setup-Kept (rodfu_handle i) r w = stored-Kept r _ w _ (ro_setup-mount p tolerant (dfu_at i w))
  setup-Kept (msc_handle i) r w = stored-Kept r _ w _ (setup_stage-mount p (msc_at i w))

  out-Kept :
      (b : Handle) (r : ℕ) (e : EpRef) (w : World Handle)
      → Kept w (safe_ep_callback c (class_out_data p tolerant names b) r e w)
  unfolding class_out_data
  out-Kept (dfu_handle i) r e w = Kept-refl w
  out-Kept (rodfu_handle i) r e w = Kept-refl w
  out-Kept (msc_handle i) r e w = stored-Kept r _ w _ (out_data-mount p e (msc_at i w))

  in-Kept :
      (b : Handle) (r : ℕ) (e : EpRef) (w : World Handle)
      → Kept w (safe_ep_callback c (class_in_data p tolerant names b) r e w)
  unfolding class_in_data
  in-Kept (dfu_handle i) r e w = Kept-refl w
  in-Kept (rodfu_handle i) r e w = Kept-refl w
  in-Kept (msc_handle i) r e w = stored-Kept r _ w _ (in_data-mount p (msc_at i w))

module _ (p : Platform) (tolerant : Bool) (names : Handle → Option (List ℕ)) where
  pub stoppable-IsModest : IsModest Handle (stoppable p tolerant names)
  unfolding if_class_init if_class_deinit if_class_setup_stage if_class_data_stage if_class_in_data
      if_class_out_data
  stoppable-IsModest = record {
    init = λ r w. init-Kept p tolerant names (stoppable p tolerant names) (w.itf r).body r w;
    deinit = λ r w. deinit-Kept p tolerant names (stoppable p tolerant names) (w.itf r).body r w;
    setup_stage =
        λ r w. setup-Kept p tolerant names (stoppable p tolerant names) (w.itf r).body r w;
    data_stage = λ r w lt. inl (Kept-refl w);
    in_data = λ r e w. in-Kept p tolerant names (stoppable p tolerant names) (w.itf r).body r e w;
    out_data = λ r e w. out-Kept p tolerant names (stoppable p tolerant names) (w.itf r).body r e w;
  }

  -- The end of an upgrade closes the device if it was configured.
  leave-Closed :
      (r : ℕ) (i : Dfu) (w : World Handle)
      → w.dev.if_count < 256
      → Kept w (leave p tolerant names r i w) ⊎ Closed w (leave p tolerant names r i w)
  unfolding leave
  leave-Closed r i w lt =
      let waiting = record (ask_manifest i) { state = manifest_wait_reset } in
      let v = set_body r (dfu_handle waiting) w in
      let off = deinit p (stoppable p tolerant names) v in
      let hv = body-Kept r (dfu_handle waiting) w in
      let logged = Kept-trans (body-Kept r _ off) (body-Kept r _ (at_dfu log_reboot r off)) in
      elim (deinit-Closed p (stoppable p tolerant names) stoppable-IsModest v lt) [
        | inl k ↦ inl (Kept-trans hv (Kept-trans k logged))
        | inr k ↦ inr (closed_after hv (closed_before k logged))
      ]

  data_stage-Closed :
      (b : Handle) (r : ℕ) (w : World Handle)
      → w.dev.if_count < 256
      → let v =
          safe_callback (classes p tolerant names) (class_data_stage p tolerant names b) r w in
        Kept w v ⊎ Closed w v
  unfolding class_data_stage
  data_stage-Closed (dfu_handle i) r w lt =
      if_holds (λ v. Kept w v ⊎ Closed w v) (leaves p tolerant names i w.dev.setup)
        (leave-Closed r i w lt) (inl (stored-Kept r _ w _ (data-mount p tolerant (dfu_at i w))))
  data_stage-Closed (rodfu_handle i) r w lt = inl (Kept-refl w)
  data_stage-Closed (msc_handle i) r w lt = inl (Kept-refl w)

  -- The upgrade and the storage mount no interface, and leave the configuration and the alternate
  -- settings to the stack; only the end of an upgrade closes the device.
  pub classes-IsModest : IsModest Handle (classes p tolerant names)
  unfolding if_class_init if_class_deinit if_class_setup_stage if_class_data_stage if_class_in_data
      if_class_out_data
  classes-IsModest = record {
    init = λ r w. init-Kept p tolerant names (classes p tolerant names) (w.itf r).body r w;
    deinit = λ r w. deinit-Kept p tolerant names (classes p tolerant names) (w.itf r).body r w;
    setup_stage = λ r w. setup-Kept p tolerant names (classes p tolerant names) (w.itf r).body r w;
    data_stage = λ r w lt. data_stage-Closed (w.itf r).body r w lt;
    in_data = λ r e w. in-Kept p tolerant names (classes p tolerant names) (w.itf r).body r e w;
    out_data = λ r e w. out-Kept p tolerant names (classes p tolerant names) (w.itf r).body r e w;
  }
