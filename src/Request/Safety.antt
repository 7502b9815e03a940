-- ===== src/Request/Safety.antt =====
-- Which endpoint the address of a request leads to.
use usbdevice.Base.{
  ℕ, ◌%◌, ◌≤◌, ◌<◌, ◌≡◌, ◌≢◌, true, false, arith, refl, Bool-cases, inl, inr, ◌∙◌, ◌==◌,
}
use usbdevice.Device.{
  e_ok, type_standard, req_set_feature, feature_ep_halt, Platform, Device, EpRef, get_ep, in_ep,
  out_ep, touch_if, state_idle, set_transfer_length, set_ep_state, ep_call, pd_ep_clear_stall,
  touch_ep,
}
use usbdevice.Endpoint.{ep_addr2ref, ep_index}
use usbdevice.Control.{ctrl_send_data}
use usbdevice.World.{World, Class, on_dev, if_class_in_data, if_class_out_data}
use usbdevice.Request.{ep_request, ep_set_halt, ep_get_status, ep_clear_halt, notify_ready}

-- A completion function of a class stays within the arrays for this endpoint of this interface, while
-- the handles are those of `w`, whatever the device.
pub record IsSafe (S : Type 0) (f : ℕ → EpRef → World S → World S) (r : ℕ) (e : EpRef) (w : World S)
    : Type 0 where
  pub stays : (v : World S) → v.itf ≡ w.itf → (f r e v).dev.out_of_range ≡ v.dev.out_of_range

-- The function that is called when the halt of the endpoint with the address `a` ends is such a one, on
-- the interface that has the endpoint.
pub record IsSafeAt (S : Type 0) (c : Class S) (a : ℕ) (w : World S) : Type 0 where
  pub in_safe :
      a ≢ a % 16
      → IsSafe S
          (if_class_in_data c)
          (w.dev.ifs (get_ep (ep_addr2ref a) w.dev).if_num)
          (ep_addr2ref a)
          w
  pub out_safe :
      a ≡ a % 16
      → IsSafe S
          (if_class_out_data c)
          (w.dev.ifs (get_ep (ep_addr2ref a) w.dev).if_num)
          (ep_addr2ref a)
          w

module _ {S : Type 0} (p : Platform) (c : Class S) where
  halt-stays : (a : ℕ) (d : Device) → (ep_set_halt p a d).1.out_of_range ≡ d.out_of_range
  unfolding ep_set_halt ep_addr2ref
  halt-stays a d = ground arith

  status-stays : (a : ℕ) (d : Device) → (ep_get_status p a d).1.out_of_range ≡ d.out_of_range
  unfolding ep_get_status ctrl_send_data
  status-stays a d = ground arith

  -- The endpoint after its halt is cleared.
  abbrev ready : EpRef → ℕ → Device → Device
  ready r a d =
      set_transfer_length r 0 (set_ep_state r state_idle (ep_call p r (pd_ep_clear_stall a) d))

  ready-keeps :
      (r : EpRef) (a : ℕ) (d : Device)
      → ((get_ep r (ready r a d)).if_num ≡ (get_ep r d).if_num)
        × ((ready r a d).ifs ≡ d.ifs)
        × ((ready r a d).out_of_range ≡ d.out_of_range)
  ready-keeps (in_ep n) a d = ground arith
  ready-keeps (out_ep n) a d = ground arith

  module _ (a : ℕ) (w : World S) (safe : IsSafeAt S c a w) where
    notify-stays :
        (get_ep (ep_addr2ref a) w.dev).if_num < p.max_if_count
        → (notify_ready p c a w).dev.out_of_range ≡ w.dev.out_of_range
    unfolding notify_ready
    notify-stays h =
        let v = on_dev (touch_if p (get_ep (ep_addr2ref a) w.dev).if_num) w in
        elim (Bool-cases (a == a % 16)) [
          | inl e ↦ rw e ((safe.out_safe (ground (arith, e))).stays v refl ∙ ground arith)
          | inr e ↦ rw e ((safe.in_safe (ground (arith, e))).stays v refl ∙ ground arith)
        ]

  moved-IsSafeAt :
      (a : ℕ) (f : Device → Device) (w : World S)
      → (get_ep (ep_addr2ref a) (f w.dev)).if_num ≡ (get_ep (ep_addr2ref a) w.dev).if_num
      → (f w.dev).ifs ≡ w.dev.ifs
      → IsSafeAt S c a w
      → IsSafeAt S c a (on_dev f w)
  moved-IsSafeAt a f w h k safe = record {
    in_safe = λ e. rw (h, k) (record { stays = (safe.in_safe e).stays });
    out_safe = λ e. rw (h, k) (record { stays = (safe.out_safe e).stays });
  }

  ready-IsSafeAt :
      (a : ℕ) (w : World S) → IsSafeAt S c a w → IsSafeAt S c a (on_dev (ready (ep_addr2ref a) a) w)
  ready-IsSafeAt a w safe =
      let (same, ifs, range) = ready-keeps (ep_addr2ref a) a w.dev in
      moved-IsSafeAt a (ready (ep_addr2ref a) a) w same ifs safe

  touched-same :
      (r : EpRef) (n : ℕ) (d : Device) → (get_ep r (touch_ep p n d)).if_num ≡ (get_ep r d).if_num
  touched-same (in_ep k) n d = refl
  touched-same (out_ep k) n d = refl

  touched-IsSafeAt :
      (a n : ℕ) (w : World S) → IsSafeAt S c a w → IsSafeAt S c a (on_dev (touch_ep p n) w)
  touched-IsSafeAt a n w safe =
      moved-IsSafeAt a (touch_ep p n) w (touched-same (ep_addr2ref a) n w.dev) refl safe

  module _ (a : ℕ) (w : World S) (safe : IsSafeAt S c a w) where
    clear-stays :
        (get_ep (ep_addr2ref a) w.dev).if_num < p.max_if_count
        → (ep_clear_halt p c a w).1.dev.out_of_range ≡ w.dev.out_of_range
    unfolding ep_clear_halt
    clear-stays h =
        let r = ep_addr2ref a in
        let v = on_dev (ready r a) w in
        ground (arith, notify-stays a v (ready-IsSafeAt a w safe), ready-keeps r a w.dev)

  index-eq : (a : ℕ) → a % 128 < 16 → a < 256 → ep_index (ep_addr2ref a) ≡ a % 16
  unfolding ep_addr2ref
  index-eq a h k = ground arith

  owner-lt :
      (r : EpRef) (d : Device)
      → ((n : ℕ) → (d.ep_in n).if_num < p.max_if_count)
      → ((n : ℕ) → (d.ep_out n).if_num < p.max_if_count)
      → (get_ep r d).if_num < p.max_if_count
  owner-lt (in_ep n) d hi ho = hi n
  owner-lt (out_ep n) d hi ho = ho n

  -- A request to an endpoint whose address has its reserved bits clear (bits 4 to 6), on a device
  -- whose endpoints belong to places of `IF`, stays within the arrays of endpoints and interfaces,
  -- whatever it asks for and however it is answered. (If the class that is told of the end of a halt stays
  -- within them for this endpoint.)
  pub ep_request_stays :
      (w : World S)
      → IsSafeAt S c (w.dev.setup.index % 256) w
      → ((n : ℕ) → (w.dev.ep_in n).if_num < p.max_if_count)
      → ((n : ℕ) → (w.dev.ep_out n).if_num < p.max_if_count)
      → w.dev.setup.index % 128 < 16
      → w.dev.out_of_range ≡ false
      → (ep_request p c w).1.dev.out_of_range ≡ false
  unfolding ep_request ep_addr2ref ep_set_halt ep_get_status ep_clear_halt notify_ready
      ctrl_send_data
  ep_request_stays w safe hi ho r h =
      let a = w.dev.setup.index % 256 in
      let v = on_dev (touch_ep p (ep_index (ep_addr2ref a))) w in
      ground (
        arith,
        index-eq a,
        halt-stays a v.dev,
        status-stays a v.dev,
        clear-stays a v (touched-IsSafeAt a (ep_index (ep_addr2ref a)) w safe)
            (owner-lt (ep_addr2ref a) v.dev hi ho),
      )

  -- The address is masked in the test of its number, and not in the use of it: a standard request to
  -- halt an OUT endpoint with a reserved bit set writes past the end of the array.
  ep_request_writes_past :
      (w : World S)
      → w.dev.config_selector ≢ 0
      → w.dev.setup.type ≡ type_standard
      → w.dev.setup.request ≡ req_set_feature
      → w.dev.setup.value ≡ feature_ep_halt
      → 0 < w.dev.setup.index % 16
      → w.dev.setup.index % 16 < p.max_ep_count
      → p.max_ep_count ≤ w.dev.setup.index % 256
      → w.dev.setup.index % 256 < 128
      → ((ep_request p c w).0 ≡ e_ok) × ((ep_request p c w).1.dev.out_of_range ≡ true)
  unfolding ep_request ep_addr2ref ep_set_halt
  ep_request_writes_past w cfg t q v pos lt h k = ground arith
