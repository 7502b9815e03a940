-- ===== src/Callback/Halt.antt =====
-- The halt feature of an endpoint, as the host sets and reads it by control transfers.
use usbdevice.Base.{ℕ, ◌%◌, ◌≤◌, ◌<◌, [], ◌∷◌, ◌≡◌, ◌≢◌, take, arith, if◌then◌else◌}
use usbdevice.Device.{
  type_standard, direction_in, recipient_endpoint, req_set_feature, req_get_status, feature_ep_halt,
  state_stall, is_stall, SetupRequest, ctrl_data_buffer, pd_ep_send, pd_ep_set_stall, null,
  Platform, get_ep,
}
use usbdevice.Endpoint.{ep_addr2ref}
use usbdevice.Control.{ctrl_send_data, ctrl_send_status}
use usbdevice.World.{World, Class}
use usbdevice.Request.{ep_request, ep_set_halt, ep_get_status, bit}
use usbdevice.Callback.{setup_callback, route_request, finish_setup}

abbrev pub with_setup : {S : Type 0} → SetupRequest → World S → World S
with_setup s w = record w { dev = record w.dev { setup = s } }

-- A standard request to the endpoint with the address `addr`, which is one of the device.
pub record IsEpRequest (p : Platform) (addr q : ℕ) (s : SetupRequest) : Type 0 where
  pub to_endpoint : s.recipient ≡ recipient_endpoint
  pub standard : s.type ≡ type_standard
  pub asks : s.request ≡ q
  pub of_addr : s.index ≡ addr
  pub byte : addr < 256
  pub number_pos : 0 < addr % 16
  pub number_lt : addr % 16 < p.max_ep_count

module _ {S : Type 0} (p : Platform) (c : Class S) (addr : ℕ) where
  -- On a configured device SET_FEATURE(ENDPOINT_HALT) halts the endpoint and is answered by the status
  -- packet; the driver is told to stall it unless it was halted already.
  pub halt_lem :
      (w : World S)
      → IsEpRequest p addr req_set_feature w.dev.setup
      → w.dev.setup.value ≡ feature_ep_halt
      → w.dev.setup.length ≡ 0
      → w.dev.config_selector ≢ 0
      → ((get_ep (ep_addr2ref addr) (setup_callback p c w).dev).state ≡ state_stall)
        × ((setup_callback p c w).dev.config_selector ≡ w.dev.config_selector)
        × ((setup_callback p c w).dev.calls
            ≡ pd_ep_send 0x80 null 0
              ∷ (if is_stall (get_ep (ep_addr2ref addr) w.dev).state
                  then w.dev.calls
                  else pd_ep_set_stall addr ∷ w.dev.calls))
  unfolding setup_callback route_request finish_setup ep_request ep_set_halt ctrl_send_status
      ep_addr2ref
  halt_lem w is v l cfg = ground arith

  -- GET_STATUS of an endpoint is answered by the two bytes of its halt feature, cut to the length
  -- that the host asks for: 1 if the endpoint is halted, and 0 if it is not.
  pub get_status_lem :
      (w : World S)
      → IsEpRequest p addr req_get_status w.dev.setup
      → w.dev.setup.direction ≡ direction_in
      → 2 ≤ w.dev.setup.length
      → w.dev.config_selector ≢ 0
      → ((setup_callback p c w).dev.calls ≡ pd_ep_send 0x80 ctrl_data_buffer 2 ∷ w.dev.calls)
        × (take 2 (setup_callback p c w).dev.ctrl_data
            ≡ bit (is_stall (get_ep (ep_addr2ref addr) w.dev).state) ∷ 0 ∷ [])
  unfolding setup_callback route_request finish_setup ep_request ep_get_status ctrl_send_data
      ep_addr2ref
  get_status_lem w is dir l cfg = ground arith

  -- After SET_FEATURE(ENDPOINT_HALT), GET_STATUS of the same endpoint is answered on a configured device:
  -- the driver is asked to send the two bytes of the control buffer, which say that it is halted. (For
  -- one of the device's endpoints, and a GET_STATUS that asks for at least two bytes.)
  pub halt_reported :
      (w : World S) (s : SetupRequest)
      → IsEpRequest p addr req_set_feature w.dev.setup
      → w.dev.setup.value ≡ feature_ep_halt
      → w.dev.setup.length ≡ 0
      → w.dev.config_selector ≢ 0
      → IsEpRequest p addr req_get_status s
      → s.direction ≡ direction_in
      → 2 ≤ s.length
      → let v = setup_callback p c w in
        let u = setup_callback p c (with_setup s v) in
        (u.dev.calls ≡ pd_ep_send 0x80 ctrl_data_buffer 2 ∷ v.dev.calls)
        × (take 2 u.dev.ctrl_data ≡ 1 ∷ 0 ∷ [])
  halt_reported w s is v l cfg is' dir' l' = ground (
    arith,
    halt_lem w is v l cfg,
    get_status_lem (with_setup s (setup_callback p c w)) is' dir' l',
  )
