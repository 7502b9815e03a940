-- ===== src/Bus/Answer.antt =====
-- Every setup packet is answered: by a data stage, by the status packet, or by stalling endpoint 0.
use usbdevice.Base.{
  ◌&&◌, ℕ, zero, suc, ◌+◌, ◌%◌, ◌≡◌, ◌⊎◌, refl, ◌∙◌, arith, ◌==◌, ◌||◌, Bool, true, false,
  Bool-cases, inl, inr, ◌≢◌, ap,
}
use usbdevice.Device.{
  state_idle, set_transfer_length, ep_call, pd_ep_clear_stall, itf_field, alt_selector_field,
  touch_ep, call, pd_set_address, req_clear_feature, req_set_feature, req_set_configuration,
  req_set_interface, EpRef, get_ep, Platform, Device, ReturnType, e_ok, e_error, e_busy, e_invalid,
  SetupRequest, is_stall, EndPointState, state_status, in_ep, out_ep, set_ep_state, state_setup,
  touch_if, type_standard, recipient_interface,
}
use usbdevice.Control.{ctrl_send_status, ctrl_send_error}
use usbdevice.Endpoint.{ep_index, ep_addr2ref}
use usbdevice.World.{
  set_alt_selector, World, Class, on_dev, on_dev_result, if_class_init, if_class_deinit,
  if_class_setup_stage,
}
use usbdevice.Interface.{
  if_request, set_interface, for_interfaces, clear_interface, start_interface, clear_config,
  start_config, if_config,
}
use usbdevice.Request.{
  ep_request, notify_ready, ep_clear_halt, ep_set_halt, set_feature, clear_feature, set_address,
  dev_request, set_config,
}
use usbdevice.Callback.{setup_callback, finish_setup, route_request}
use usbdevice.Bus.Kept.{IsModest}
use usbdevice.Bus.Prompt.{
  has_data, IsPrompt, refused, accepted, send_data-IsPrompt, descriptor-IsPrompt, status-IsPrompt,
  get_config-IsPrompt, ep_status-IsPrompt,
}

abbrev pub is_status : EndPointState → Bool
is_status state_status = true
is_status _ = false

-- The host has its answer on endpoint 0.
abbrev pub answered : Device → Bool
answered d =
    (is_stall (d.ep_in 0).state && is_stall (d.ep_out 0).state)
    || is_status (d.ep_in 0).state
    || has_data d

-- A standard request that changes the device, which has no data stage.
abbrev pub is_change : SetupRequest → Bool
is_change s =
    (s.type == type_standard)
    && ((s.request == req_clear_feature)
        || (s.request == req_set_feature)
        || (s.request == req_set_configuration)
        || (s.request == req_set_interface))

module _ {S : Type 0} (p : Platform) (c : Class S) where
  module _ (m : IsModest S c) where
    -- A loop over the interfaces leaves the request alone if its body does.
    for-setup :
        (body : ℕ → World S → World S)
        → ((i : ℕ) (w : World S) → (body i w).dev.setup ≡ w.dev.setup)
        → (fuel i : ℕ) (w : World S) → (for_interfaces p c body fuel i w).dev.setup ≡ w.dev.setup
    unfolding for_interfaces
    for-setup body h zero i w = refl
    for-setup body h (suc fuel) i w =
        ground (arith, h i w, for-setup body h fuel (i + 1) (body i w))

    clear-setup : (i : ℕ) (w : World S) → (clear_interface p c i w).dev.setup ≡ w.dev.setup
    unfolding clear_interface
    clear-setup i w = (m.deinit _ _).mount.setup

    start-setup : (i : ℕ) (w : World S) → (start_interface p c i w).dev.setup ≡ w.dev.setup
    unfolding start_interface
    start-setup i w = (m.init _ _).mount.setup

    clear_config-setup : (w : World S) → (clear_config p c w).dev.setup ≡ w.dev.setup
    unfolding clear_config
    clear_config-setup w = ground (arith, for-setup (clear_interface p c) clear-setup 256 0 w)

    start_config-setup : (w : World S) → (start_config p c w).dev.setup ≡ w.dev.setup
    unfolding start_config
    start_config-setup w = ground (arith, for-setup (start_interface p c) start-setup 256 0 w)

    if_config-setup : (n : ℕ) (w : World S) → (if_config p c n w).dev.setup ≡ w.dev.setup
    unfolding if_config
    if_config-setup n w =
        let cleared = clear_config p c w in
        let selected = on_dev (λ d. record d { config_selector = n }) cleared in
        ground (arith, clear_config-setup w, start_config-setup selected)

    -- A request without a data stage, or one that changes nothing itself.
    abbrev IsFit : SetupRequest → Type 0
    IsFit s = (s.length ≡ 0) ⊎ (is_change s ≡ false)

    dev_request-IsPrompt : (w : World S) → IsFit w.dev.setup → IsPrompt (dev_request p c w)
    unfolding dev_request set_config set_feature clear_feature set_address
    dev_request-IsPrompt w fit =
        let n = w.dev.setup.value % 256 in
        ground (
          arith,
          refused p c w,
          descriptor-IsPrompt p c w,
          get_config-IsPrompt p c w,
          status-IsPrompt p c w,
          accepted p c w,
          accepted p c (if_config p c n w),
          if_config-setup n w,
          accepted p c (on_dev (λ d. record d { remote_wakeup = true }) w),
          accepted p c (on_dev (λ d. record d { remote_wakeup = false }) w),
          accepted p c (on_dev (call (pd_set_address (w.dev.setup.value % 128))) w),
        )

    set_interface-setup :
        (r alt : ℕ) (w : World S)
        → (if_class_init c r (set_alt_selector r alt (if_class_deinit c r w))).dev.setup
          ≡ w.dev.setup
    set_interface-setup r alt w =
        (m.init r (set_alt_selector r alt (if_class_deinit c r w))).mount.setup
        ∙ (m.deinit r w).mount.setup

    -- The answer of the class to a request to its interface.
    abbrev asked : World S → ReturnType × World S
    asked w =
        let i = w.dev.setup.index % 256 in
        if_class_setup_stage c (w.dev.ifs i) (on_dev (touch_if p i) w)

    if_request-IsPrompt :
        (w : World S) → IsFit w.dev.setup → IsPrompt (asked w) → IsPrompt (if_request p c w)
    unfolding if_request set_interface
    if_request-IsPrompt w fit class_fit =
        let i = w.dev.setup.index % 256 in
        let r = w.dev.ifs i in
        let alt = w.dev.setup.value % 256 in
        let v = on_dev (touch_if p i) w in
        ground (
          arith,
          refused p c v,
          class_fit,
          send_data-IsPrompt p c (itf_field r alt_selector_field) 1 v,
          accepted p c (if_class_init c r (set_alt_selector r alt (if_class_deinit c r v))),
          set_interface-setup r alt v,
        )

    -- The endpoint after its halt is cleared.
    abbrev ready : EpRef → ℕ → Device → Device
    ready r a d =
        set_transfer_length r 0 (set_ep_state r state_idle (ep_call p r (pd_ep_clear_stall a) d))

    ready-setup : (r : EpRef) (a : ℕ) (d : Device) → (ready r a d).setup ≡ d.setup
    ready-setup (in_ep n) a d = refl
    ready-setup (out_ep n) a d = refl

    notify-setup : (a : ℕ) (w : World S) → (notify_ready p c a w).dev.setup ≡ w.dev.setup
    unfolding notify_ready
    notify-setup a w =
        let r = ep_addr2ref a in
        let i = (get_ep r w.dev).if_num in
        let v = on_dev (touch_if p i) w in
        ground (
          arith,
          (m.in_data (w.dev.ifs i) r v).mount.setup,
          (m.out_data (w.dev.ifs i) r v).mount.setup,
        )

    clear_halt-setup : (a : ℕ) (w : World S) → (ep_clear_halt p c a w).1.dev.setup ≡ w.dev.setup
    unfolding ep_clear_halt
    clear_halt-setup a w =
        let r = ep_addr2ref a in
        ground (arith, notify-setup a (on_dev (ready r a) w), ready-setup r a w.dev)

    set_halt-setup : (a : ℕ) (d : Device) → (ep_set_halt p a d).1.setup ≡ d.setup
    unfolding ep_set_halt ep_addr2ref
    set_halt-setup a d = ground arith

    -- A request without data is answered however its function ends.
    no_data : (x : ReturnType × World S) → x.1.dev.setup.length ≡ 0 → IsPrompt x
    no_data (r, w) h = record { prompt = λ e. ground (arith, h) }

    ep_request-IsPrompt : (w : World S) → IsFit w.dev.setup → IsPrompt (ep_request p c w)
    unfolding ep_request
    ep_request-IsPrompt w fit =
        let a = w.dev.setup.index % 256 in
        let v = on_dev (touch_ep p (ep_index (ep_addr2ref a))) w in
        ground (
          arith,
          refused p c w,
          no_data (on_dev_result (ep_set_halt p a) v),
          set_halt-setup a v.dev,
          no_data (ep_clear_halt p c a v),
          clear_halt-setup a v,
          ep_status-IsPrompt p c a v,
        )

    route_request-IsPrompt :
        (w : World S)
        → IsFit w.dev.setup
        → (w.dev.setup.recipient ≡ recipient_interface → IsPrompt (asked w))
        → IsPrompt (route_request p c w)
    unfolding route_request
    route_request-IsPrompt w fit class_fit = ground (
      arith,
      refused p c w,
      dev_request-IsPrompt w fit,
      λ (e : w.dev.setup.recipient ≡ recipient_interface). if_request-IsPrompt w fit (class_fit e),
      ep_request-IsPrompt w fit,
    )

    finish_answered :
        (x : ReturnType × World S) → IsPrompt x → answered (finish_setup p c x).dev ≡ true
    unfolding finish_setup ctrl_send_status ctrl_send_error
    finish_answered (e_ok, w) h = ground (arith, h.prompt refl)
    finish_answered (e_error, w) h = ground arith
    finish_answered (e_busy, w) h = ground arith
    finish_answered (e_invalid, w) h = ground arith

    prompt_or_left :
        (x : ReturnType × World S) (n : ℕ)
        → x.1.dev.setup.length ≡ n
        → IsPrompt x ⊎ ((x.0 ≡ e_ok) × (n ≢ 0) × (has_data x.1.dev ≡ false))
    prompt_or_left (e_ok, w) n h = elim (Bool-cases ((w.dev.setup.length == 0) || has_data w.dev)) [
      | inl a ↦ inl (record { prompt = λ e. a })
      | inr b ↦ inr (refl, ground (arith, b, h), ground (arith, b))
    ]
    prompt_or_left (e_error, w) n h = inl (record { prompt = λ e. ground (arith, e) })
    prompt_or_left (e_busy, w) n h = inl (record { prompt = λ e. ground (arith, e) })
    prompt_or_left (e_invalid, w) n h = inl (record { prompt = λ e. ground (arith, e) })

    -- A setup packet is answered when its callback returns: a data stage is under way, or the status
    -- packet is, or both directions of endpoint 0 are stalled. The only request that is left without an
    -- answer is one to an interface that has a data stage and that the class accepts without starting
    -- it. (For classes that leave the mount, the settings and the request alone, and a request that has no
    -- data stage or is not a standard request for a change.)
    pub setup_answered :
        (w : World S)
        → (w.dev.setup.length ≡ 0) ⊎ (is_change w.dev.setup ≡ false)
        → let i = w.dev.setup.index % 256 in
          let v = on_dev (λ d. touch_if p i (set_ep_state (out_ep 0) state_setup d)) w in
          let x = if_class_setup_stage c (w.dev.ifs i) v in
          (answered (setup_callback p c w).dev ≡ true)
          ⊎ ((w.dev.setup.recipient ≡ recipient_interface)
              × (x.0 ≡ e_ok)
              × (w.dev.setup.length ≢ 0)
              × (has_data x.1.dev ≡ false))
    unfolding setup_callback
    setup_answered w fit =
        let i = w.dev.setup.index % 256 in
        let v = on_dev (set_ep_state (out_ep 0) state_setup) w in
        let same = (m.setup_stage (w.dev.ifs i) (on_dev (touch_if p i) v)).mount.setup in
        let done = λ (h : w.dev.setup.recipient ≡ recipient_interface → IsPrompt (asked v)).
          finish_answered (route_request p c v) (route_request-IsPrompt v fit h) in
        elim (Bool-cases (w.dev.setup.recipient == recipient_interface)) [
          | inl e ↦ elim (prompt_or_left (asked v) w.dev.setup.length (ap (λ s. s.length) same)) [
            | inl h ↦ inl (done (λ k. h))
            | inr l ↦ inr (ground (arith, e), l.0, l.1, l.2)
          ]
          | inr e ↦ inl (done (λ k. absurd (ground (arith, e, k))))
        ]
