-- ===== src/Bus/Bodies.antt =====
-- What the functions of every class keep of all handles, every sequence of events keeps.
use usbdevice.Base.{ℕ, zero, suc, ◌+◌, ◌%◌, ltb, arith, if_holds, subst, sym, ◌==◌}
use usbdevice.Device.{Platform, EpRef, touch_if}
use usbdevice.World.{
  World, Class, on_dev, set_alt_selector, if_class_init, if_class_deinit, if_class_setup_stage,
  if_class_data_stage, if_class_in_data, if_class_out_data,
}
use usbdevice.Interface.{
  clear_interface, start_interface, for_interfaces, clear_config, start_config, if_config,
  set_interface,
}
use usbdevice.Bus.{set_body, Reach}
use usbdevice.Bus.Kept.{Own}
use usbdevice.Bus.Answers.{IsInvariant}
use usbdevice.Bus.Events.{reach_holds}

-- A predicate that holds of the handle of every interface.
abbrev pub AllBodies : {S : Type 0} → (S → Type 0) → World S → Type 0
AllBodies P w = (q : ℕ) → P (w.itf q).body

pub record KeepsBodies {S : Type 0} (c : Class S) (P : S → Type 0) : Type 0 where
  pub init : (r : ℕ) (w : World S) → AllBodies P w → AllBodies P (if_class_init c r w)
  pub deinit : (r : ℕ) (w : World S) → AllBodies P w → AllBodies P (if_class_deinit c r w)
  pub setup_stage :
      (r : ℕ) (w : World S) → AllBodies P w → AllBodies P (if_class_setup_stage c r w).1
  pub data_stage : (r : ℕ) (w : World S) → AllBodies P w → AllBodies P (if_class_data_stage c r w)
  pub in_data :
      (r : ℕ) (e : EpRef) (w : World S) → AllBodies P w → AllBodies P (if_class_in_data c r e w)
  pub out_data :
      (r : ℕ) (e : EpRef) (w : World S) → AllBodies P w → AllBodies P (if_class_out_data c r e w)

pub set_body-AllBodies :
    {S : Type 0} (P : S → Type 0) (r : ℕ) (b : S) (w : World S)
    → P b
    → AllBodies P w
    → AllBodies P (set_body r b w)
set_body-AllBodies P r b w pb h = λ q. ground (arith, pb, h q)

module _ {S : Type 0} (p : Platform) (c : Class S) (P : S → Type 0) where
  for_holds :
      (body : ℕ → World S → World S)
      → ((i : ℕ) (w : World S) → AllBodies P w → AllBodies P (body i w))
      → (fuel i : ℕ) (w : World S) → AllBodies P w
      → AllBodies P (for_interfaces p c body fuel i w)
  unfolding for_interfaces
  for_holds body h zero i w k = k
  for_holds body h (suc fuel) i w k =
      if_holds (AllBodies P) (ltb i w.dev.if_count)
        (for_holds body h fuel (i + 1) (body i w) (h i w k)) k

  module _ (kb : KeepsBodies c P) where
    alt_holds : (r n : ℕ) (w : World S) → AllBodies P w → AllBodies P (set_alt_selector r n w)
    alt_holds r n w h = λ q. ground (arith, h q, h r)

    own_holds : {w v : World S} → Own w v → AllBodies P w → AllBodies P v
    own_holds k h = λ q. subst (λ f. P (f q).body) (sym k.same) (h q)

    clear_holds : (i : ℕ) (w : World S) → AllBodies P w → AllBodies P (clear_interface p c i w)
    unfolding clear_interface
    clear_holds i w h =
        let u = on_dev (touch_if p i) w in
        let v = if_class_deinit c (w.dev.ifs i) u in
        alt_holds (v.dev.ifs i) 0 v (kb.deinit (w.dev.ifs i) u h)

    start_holds : (i : ℕ) (w : World S) → AllBodies P w → AllBodies P (start_interface p c i w)
    unfolding start_interface
    start_holds i w h = kb.init (w.dev.ifs i) (on_dev (touch_if p i) w) h

    clear_config_holds : (w : World S) → AllBodies P w → AllBodies P (clear_config p c w)
    unfolding clear_config
    clear_config_holds w h =
        if_holds (AllBodies P) (w.dev.config_selector == 0) h
          (for_holds (clear_interface p c) clear_holds 256 0 w h)

    start_config_holds : (w : World S) → AllBodies P w → AllBodies P (start_config p c w)
    unfolding start_config
    start_config_holds w h =
        if_holds (AllBodies P) (w.dev.config_selector == 0) h
          (for_holds (start_interface p c) start_holds 256 0 w h)

    -- A change of configuration, and so `USBD_Deinit`, keeps it.
    pub if_config_holds : (k : ℕ) (w : World S) → AllBodies P w → AllBodies P (if_config p c k w)
    unfolding if_config
    if_config_holds k w h =
        let cleared = clear_config p c w in
        if_holds (AllBodies P) (w.dev.config_selector == k) h (
          start_config_holds (on_dev (λ d. record d { config_selector = k }) cleared)
            (clear_config_holds w h))

    choose_holds : (r : ℕ) (w : World S) → AllBodies P w → AllBodies P (set_interface p c r w).1
    unfolding set_interface
    choose_holds r w h =
        let alt = w.dev.setup.value % 256 in
        let v = if_class_deinit c r w in
        let chosen = kb.init r (set_alt_selector r alt v) (alt_holds r alt v (kb.deinit r w h)) in
        λ q. ground (arith, chosen q, h q)

    AllBodies-IsInvariant : IsInvariant p c (AllBodies P)
    AllBodies-IsInvariant = record {
      receives = λ s w h. h;
      own = own_holds;
      configure = λ k w le h. if_config_holds k w h;
      choose = λ r w ne h. choose_holds r w h;
      setup_stage = kb.setup_stage;
      data_stage = kb.data_stage;
      in_data = kb.in_data;
      out_data = kb.out_data;
    }

    -- A predicate that all classes and the driver keep of the handles holds of them in every state
    -- that the device comes to.
    pub reach-AllBodies :
        (Fills : S → S → Type 0)
        → ((a b : S) → Fills a b → P a → P b)
        → {w v : World S} → AllBodies P w
        → Reach p c Fills w v
        → AllBodies P v
    reach-AllBodies Fills keep h r =
        reach_holds p c Fills (AllBodies P) AllBodies-IsInvariant
          (λ q b w x k. set_body-AllBodies P q b w (keep (w.itf q).body b x (k q)) k) h r
