-- ===== src/Callback/Address.antt =====
-- The SET_ADDRESS request, from its setup stage to the end of its status stage.
use usbdevice.Base.{◌%◌, ◌∷◌, ◌≡◌, ◌≢◌, false, arith}
use usbdevice.Device.{
  state_stall, type_standard, direction_out, recipient_device, req_set_address, null, SetupRequest,
  pd_set_address, pd_ep_send, pd_ep_set_stall, Platform,
}
use usbdevice.World.{World, Class}
use usbdevice.Control.{ctrl_send_status, ctrl_send_error}
use usbdevice.Request.{dev_request, set_address}
use usbdevice.Callback.{
  setup_callback, route_request, finish_setup, ep_in_callback, ctrl_in_callback, needs_zlp,
  apply_address,
}

-- The request as the standard has it: no data stage, and nothing in wIndex.
pub record IsSetAddress (s : SetupRequest) : Type 0 where
  pub to_device : s.recipient ≡ recipient_device
  pub standard : s.type ≡ type_standard
  pub outward : s.direction ≡ direction_out
  pub asks : s.request ≡ req_set_address
  pub no_index : s.index ≡ 0
  pub no_length : s.length ≡ 0

module _ {S : Type 0} (p : Platform) (c : Class S) (w : World S)
    (is : IsSetAddress w.dev.setup) where
  -- On a device that is not configured and sets its address late, the request is answered by the
  -- status packet alone, and the driver is given the new address, of 7 bits, when that has been sent.
  pub set_address_deferred :
      w.dev.config_selector ≡ 0
      → p.set_address_immediate ≡ false
      → (ep_in_callback p c 0 (setup_callback p c w)).dev.calls
        ≡ pd_set_address (w.dev.setup.value % 128) ∷ pd_ep_send 0x80 null 0 ∷ w.dev.calls
  unfolding setup_callback route_request finish_setup dev_request set_address ep_in_callback
      ctrl_in_callback needs_zlp apply_address ctrl_send_status
  set_address_deferred cfg late = ground arith

  -- On a configured device the request is refused: both directions of endpoint 0 are stalled, and the
  -- driver is given no address.
  pub set_address_refused :
      w.dev.config_selector ≢ 0
      → ((setup_callback p c w).dev.calls
          ≡ pd_ep_set_stall 0x00 ∷ pd_ep_set_stall 0x80 ∷ w.dev.calls)
        × (((setup_callback p c w).dev.ep_in 0).state ≡ state_stall)
        × (((setup_callback p c w).dev.ep_out 0).state ≡ state_stall)
  unfolding setup_callback route_request finish_setup dev_request set_address ctrl_send_error
  set_address_refused cfg = ground arith
