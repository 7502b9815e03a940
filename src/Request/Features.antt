-- ===== src/Request/Features.antt =====
-- The features of the device, as the host sets them and reads them.
use usbdevice.Base.{ℕ, ◌+◌, ◌*◌, ◌≡◌, ◌≤◌, ◌∷◌, [], Bool, true, false, take, arith, if◌then◌else◌}
use usbdevice.Device.{
  e_ok, e_error, type_standard, direction_in, is_setup, req_get_status, req_set_feature,
  req_clear_feature, feature_remote_wakeup, SetupRequest, ctrl_data_buffer, pd_ep_send,
  pd_set_remote_wakeup, Platform,
}
use usbdevice.Control.{ctrl_send_data}
use usbdevice.World.{World, Class}
use usbdevice.Request.{
  dev_request, set_feature, clear_feature, get_status, signal_remote_wakeup, bit,
}

abbrev pub asking : {S : Type 0} → SetupRequest → World S → World S
asking s w = record w { dev = record w.dev { setup = s } }

-- A standard request `q` for the remote wakeup feature.
pub record IsWakeupRequest (q : ℕ) (s : SetupRequest) : Type 0 where
  pub standard : s.type ≡ type_standard
  pub asks : s.request ≡ q
  pub feature : s.value ≡ feature_remote_wakeup

module _ {S : Type 0} (p : Platform) (c : Class S) where
  -- The device signals remote wakeup exactly if the last of the host's requests has enabled it: after
  -- SET_FEATURE the driver is called, after CLEAR_FEATURE the call is refused and the driver is left
  -- alone.
  pub remote_wakeup_lem :
      (on : Bool) (w : World S)
      → IsWakeupRequest (if on then req_set_feature else req_clear_feature) w.dev.setup
      → let v = signal_remote_wakeup (dev_request p c w).1.dev in
        (v.0 ≡ (if on then e_ok else e_error))
        × (v.1.calls ≡ (if on then pd_set_remote_wakeup ∷ w.dev.calls else w.dev.calls))
  unfolding dev_request set_feature clear_feature signal_remote_wakeup
  remote_wakeup_lem true w is = ground arith
  remote_wakeup_lem false w is = ground arith

  -- After SET_FEATURE or CLEAR_FEATURE for remote wakeup, GET_STATUS of the device is answered: the driver
  -- is asked to send the two bytes of the control buffer, which have the new feature in bit 1, and
  -- in bit 0 whether the device has its own power. (For a GET_STATUS in its setup stage that asks for at
  -- least two bytes.)
  pub features_reported :
      (on : Bool) (w : World S) (s : SetupRequest)
      → IsWakeupRequest (if on then req_set_feature else req_clear_feature) w.dev.setup
      → s.type ≡ type_standard
      → s.request ≡ req_get_status
      → s.direction ≡ direction_in
      → 2 ≤ s.length
      → is_setup (w.dev.ep_out 0).state ≡ true
      → let v = dev_request p c (asking s (dev_request p c w).1) in
        (v.0 ≡ e_ok)
        × (v.1.dev.calls ≡ pd_ep_send 0x80 ctrl_data_buffer 2 ∷ w.dev.calls)
        × (take 2 v.1.dev.ctrl_data ≡ (bit w.dev.self_powered + 2 * bit on) ∷ 0 ∷ [])
  unfolding dev_request set_feature clear_feature get_status ctrl_send_data
  features_reported true w s is t q dir l st = ground arith
  features_reported false w s is t q dir l st = ground arith
