-- ===== src/Bus/Answers.antt =====
-- What every request and every callback of the stack keeps, whatever it is.
use usbdevice.Base.{◌≢◌, ℕ, ◌%◌, ◌≤◌, refl, arith}
use usbdevice.Device.{
  itf_field, alt_selector_field, touch_ep, get_ep, touch_if, e_invalid, Platform, EpRef, ReturnType,
  e_ok, SetupRequest,
}
use usbdevice.World.{World, Class, if_class_setup_stage, on_dev}
use usbdevice.Callback.{route_request}
use usbdevice.Interface.{if_config, if_request, set_interface}
use usbdevice.Endpoint.{ep_index, ep_addr2ref}
use usbdevice.Request.{
  set_config, dev_request, ep_request, notify_ready, ep_clear_halt, ep_set_halt,
}
use usbdevice.World.{if_class_data_stage, if_class_in_data, if_class_out_data}
use usbdevice.Bus.Kept.{Own, touch-Own}
use usbdevice.Bus.Descriptors.{
  Keeps, keep_same, keep_result, plain, send_data-Keeps, descriptor-Keeps,
}
use usbdevice.Bus.Requests.{
  set_halt-mount, get_config-Keeps, get_status-Keeps, set_address-Keeps, set_feature-Keeps,
  clear_feature-Keeps, ready, ready-Own, ep_status-Keeps,
}

-- A predicate that survives what the stack does itself, a change of configuration or of a setting, and
-- the functions of the classes.
pub record IsInvariant {S : Type 0} (p : Platform) (c : Class S) (I : World S → Type 0)
    : Type 0 where
  pub own : {w v : World S} → Own w v → I w → I v
  pub receives : (s : SetupRequest) (w : World S) → I w → I (on_dev (λ d. record d { setup = s }) w)
  pub configure : (k : ℕ) (w : World S) → k ≤ 1 → I w → I (if_config p c k w)
  pub choose : (r : ℕ) (w : World S) → w.dev.config_selector ≢ 0 → I w → I (set_interface p c r w).1
  pub setup_stage : (r : ℕ) (w : World S) → I w → I (if_class_setup_stage c r w).1
  pub data_stage : (r : ℕ) (w : World S) → I w → I (if_class_data_stage c r w)
  pub in_data : (r : ℕ) (e : EpRef) (w : World S) → I w → I (if_class_in_data c r e w)
  pub out_data : (r : ℕ) (e : EpRef) (w : World S) → I w → I (if_class_out_data c r e w)

module _ {S : Type 0} (p : Platform) (c : Class S) (I : World S → Type 0)
    (inv : IsInvariant p c I) where
  -- An answer after which the predicate holds.
  pub record Safe (x : ReturnType × World S) : Type 0 where
    pub sound : I x.1

  Keeps-Safe : {w : World S} {x : ReturnType × World S} → I w → Keeps w x → Safe x
  Keeps-Safe h k = record { sound = inv.own k.kept h }

  configured-Safe : (k : ℕ) (w : World S) → k ≤ 1 → I w → Safe (e_ok, if_config p c k w)
  configured-Safe k w le h = record { sound = inv.configure k w le h }

  accepted-Safe : (w : World S) → I w → Safe (e_ok, w)
  accepted-Safe w h = record { sound = h }

  set_config-Safe : (w : World S) → I w → Safe (set_config p c w)
  unfolding set_config
  set_config-Safe w h =
      let k = w.dev.setup.value % 256 in
      ground (
        arith,
        λ (le : k ≤ 1). configured-Safe k w le h,
        Keeps-Safe h (keep_same {r = e_invalid} w),
      )

  dev_request-Safe : (w : World S) → I w → Safe (dev_request p c w)
  unfolding dev_request
  dev_request-Safe w h = ground (
    arith,
    Keeps-Safe h (keep_same {r = e_invalid} w),
    Keeps-Safe h (descriptor-Keeps p c w),
    Keeps-Safe h (set_address-Keeps p c w),
    Keeps-Safe h (get_config-Keeps p c w),
    Keeps-Safe h (get_status-Keeps p c w),
    Keeps-Safe h (set_feature-Keeps p c w),
    Keeps-Safe h (clear_feature-Keeps p c w),
    set_config-Safe w h,
  )

  set_interface-Safe :
      (r : ℕ) (w : World S) → I w → w.dev.config_selector ≢ 0 → Safe (set_interface p c r w)
  set_interface-Safe r w h ne = record { sound = inv.choose r w ne h }

  setup_stage-Safe : (r : ℕ) (w : World S) → I w → Safe (if_class_setup_stage c r w)
  setup_stage-Safe r w h = record { sound = inv.setup_stage r w h }

  if_request-Safe : (w : World S) → I w → Safe (if_request p c w)
  unfolding if_request
  if_request-Safe w h =
      let i = w.dev.setup.index % 256 in
      let r = w.dev.ifs i in
      let v = on_dev (touch_if p i) w in
      let hv = inv.own (touch-Own p i w) h in
      ground (
        arith,
        Keeps-Safe hv (keep_same {r = e_invalid} v),
        setup_stage-Safe r v hv,
        Keeps-Safe hv (send_data-Keeps p c (itf_field r alt_selector_field) 1 v),
        set_interface-Safe r v hv,
      )

  notify_holds : (a : ℕ) (w : World S) → I w → I (notify_ready p c a w)
  unfolding notify_ready
  notify_holds a w h =
      let r = ep_addr2ref a in
      let i = (get_ep r w.dev).if_num in
      let v = on_dev (touch_if p i) w in
      let hv = inv.own (touch-Own p i w) h in
      ground (arith, inv.in_data (w.dev.ifs i) r v hv, inv.out_data (w.dev.ifs i) r v hv)

  clear_halt-Safe : (a : ℕ) (w : World S) → I w → Safe (ep_clear_halt p c a w)
  unfolding ep_clear_halt
  clear_halt-Safe a w h =
      let r = ep_addr2ref a in
      let v = on_dev (ready p c r a) w in
      ground (
        arith,
        Keeps-Safe h (keep_same {r = e_invalid} w),
        Keeps-Safe h (keep_same {r = e_ok} w),
        accepted-Safe (notify_ready p c a v) (notify_holds a v (inv.own (ready-Own p c r a w) h)),
      )

  ep_request-Safe : (w : World S) → I w → Safe (ep_request p c w)
  unfolding ep_request
  ep_request-Safe w h =
      let a = w.dev.setup.index % 256 in
      let v = on_dev (touch_ep p (ep_index (ep_addr2ref a))) w in
      let hv = inv.own (plain (touch_ep p (ep_index (ep_addr2ref a))) w refl refl refl refl) h in
      ground (
        arith,
        Keeps-Safe h (keep_same {r = e_invalid} w),
        Keeps-Safe hv (keep_result (ep_set_halt p a) v (set_halt-mount p a v.dev)),
        clear_halt-Safe a v hv,
        Keeps-Safe hv (ep_status-Keeps p c a v),
      )

  -- Whatever the host asks for, the predicate holds after it.
  pub route_request-Safe : (w : World S) → I w → Safe (route_request p c w)
  unfolding route_request
  route_request-Safe w h = ground (
    arith,
    Keeps-Safe h (keep_same {r = e_invalid} w),
    dev_request-Safe w h,
    if_request-Safe w h,
    ep_request-Safe w h,
  )
