-- ===== src/Bus/Sound.antt =====
-- Every sequence of events leaves a device sound.
use usbdevice.Base.{◌≢◌, ℕ, ◌%◌, ◌<◌, inl, inr, arith}
use usbdevice.Device.{Platform}
use usbdevice.World.{World, Class, if_class_init, if_class_deinit, set_alt_selector}
use usbdevice.Interface.{set_interface}
use usbdevice.World.{if_class_data_stage}
use usbdevice.Bus.{Reach, set_body}
use usbdevice.Bus.Kept.{Own-Kept, IsModest, IsSound, Kept-IsSound, Closed-IsSound}
use usbdevice.Bus.Config.{if_config-IsSound}
use usbdevice.Bus.Answers.{IsInvariant}
use usbdevice.Bus.Events.{reach_holds}

module _ {S : Type 0} (p : Platform) (c : Class S) (m : IsModest S c) (n : ℕ) (f : ℕ → ℕ)
    (small : n < 256) where
  -- A handle that is in a setting that it has.
  set_alt-IsSound :
      (r alt : ℕ) (w : World S)
      → w.dev.config_selector ≢ 0
      → alt < (w.itf r).alt_count
      → IsSound n f w
      → IsSound n f (set_alt_selector r alt w)
  set_alt-IsSound r alt w ne lt h = record {
    count = h.count;
    ifs = h.ifs;
    config = h.config;
    selected = λ j lj. grind (arith, h.selected j lj);
    settled = λ e j lj. absurd (ne e);
  }

  switch-IsSound :
      (r alt : ℕ) (w : World S)
      → w.dev.config_selector ≢ 0
      → IsSound n f w
      → alt < (w.itf r).alt_count
      → IsSound n f (if_class_init c r (set_alt_selector r alt (if_class_deinit c r w)))
  switch-IsSound r alt w ne h lt =
      let v = if_class_deinit c r w in
      Kept-IsSound (m.init r (set_alt_selector r alt v)) (
        set_alt-IsSound r alt v (rw (m.deinit r w).mount.config ne)
          (rw ((m.deinit r w).counts r) lt) (Kept-IsSound (m.deinit r w) h))

  set_interface-IsSound :
      (r : ℕ) (w : World S)
      → w.dev.config_selector ≢ 0
      → IsSound n f w
      → IsSound n f (set_interface p c r w).1
  unfolding set_interface
  set_interface-IsSound r w ne h =
      ground (arith, switch-IsSound r (w.dev.setup.value % 256) w ne h, h)

  data_stage-IsSound :
      (r : ℕ) (w : World S) → IsSound n f w → IsSound n f (if_class_data_stage c r w)
  data_stage-IsSound r w h = elim (m.data_stage r w (rw h.count small)) [
    | inl k ↦ Kept-IsSound k h
    | inr k ↦ Closed-IsSound k h
  ]

  IsSound-IsInvariant : IsInvariant p c (IsSound n f)
  IsSound-IsInvariant = record {
    own = λ k h. Kept-IsSound (Own-Kept k) h;
    receives = λ s w h. record {
      count = h.count;
      ifs = h.ifs;
      config = h.config;
      selected = h.selected;
      settled = h.settled;
    };
    configure = λ k w le h. if_config-IsSound p c m k w le small h;
    choose = set_interface-IsSound;
    setup_stage = λ r w h. Kept-IsSound (m.setup_stage r w) h;
    data_stage = data_stage-IsSound;
    in_data = λ r e w h. Kept-IsSound (m.in_data r e w) h;
    out_data = λ r e w h. Kept-IsSound (m.out_data r e w) h;
  }

  fill-IsSound : (r : ℕ) (b : S) (w : World S) → IsSound n f w → IsSound n f (set_body r b w)
  fill-IsSound r b w h = record {
    count = h.count;
    ifs = h.ifs;
    config = h.config;
    selected = λ j lj. grind (arith, h.selected j lj);
    settled = λ e j lj. grind (arith, h.settled e j lj);
  }

  -- Requests, transfers and resets, whichever come and in whatever order, leave a device that is sound
  -- so: its interfaces stay mounted as they are, it is in configuration 0 or 1, each of its interfaces
  -- is in a setting that it has, and in the first one while the device is not configured. (For fewer
  -- than 256 interfaces, of classes that are modest.)
  pub reach-IsSound :
      (Fills : S → S → Type 0) {w v : World S} → IsSound n f w → Reach p c Fills w v → IsSound n f v
  reach-IsSound Fills h r =
      reach_holds p c Fills (IsSound n f) IsSound-IsInvariant (λ q b w x k. fill-IsSound q b w k) h
        r
