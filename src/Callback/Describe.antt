-- ===== src/Callback/Describe.antt =====
-- GET_DESCRIPTOR, from the request of the host to the bytes in its data stage.
use usbdevice.Base.{ℕ, ◌+◌, ◌*◌, ◌/◌, ◌%◌, ◌<◌, ◌≡◌, ◌∷◌, take, length, min, arith, get_or}
use usbdevice.Device.{
  type_standard, direction_in, recipient_device, req_get_descriptor, SetupRequest, ctrl_data_buffer,
  pd_ep_send, Platform, state_data,
}
use usbdevice.Control.{ctrl_send_data}
use usbdevice.World.{World, Class}
use usbdevice.Descriptor.{device_desc, get_descriptor, send_written, config_desc}
use usbdevice.Request.{dev_request}
use usbdevice.Callback.{setup_callback, route_request, finish_setup}

-- A request for the descriptor of type `t`, for `len` bytes at most.
pub record IsGetDescriptor (t : ℕ) (s : SetupRequest) : Type 0 where
  pub to_device : s.recipient ≡ recipient_device
  pub standard : s.type ≡ type_standard
  pub inward : s.direction ≡ direction_in
  pub asks : s.request ≡ req_get_descriptor
  pub of_type : s.value / 256 ≡ t
  pub length_pos : 0 < s.length

module _ {S : Type 0} (p : Platform) (c : Class S) where
  -- The device descriptor is sent from the control buffer, cut to the length that the host asks for;
  -- the vendor, the product and the version in it are those of the description.
  pub device_desc_lem :
      (w : World S)
      → IsGetDescriptor 1 w.dev.setup
      → let d = (setup_callback p c w).dev in
        (d.calls ≡ pd_ep_send 0x80 ctrl_data_buffer (min 18 w.dev.setup.length) ∷ w.dev.calls)
        × ((d.ep_in 0).state ≡ state_data)
        × (take 18 d.ctrl_data ≡ device_desc p w.dev)
        × (get_or d.ctrl_data 8 0 + 256 * get_or d.ctrl_data 9 0 ≡ w.dev.desc.vendor_id % 65536)
        × (get_or d.ctrl_data 10 0 + 256 * get_or d.ctrl_data 11 0 ≡ w.dev.desc.product_id % 65536)
        × (get_or d.ctrl_data 12 0 + 256 * get_or d.ctrl_data 13 0 ≡ w.dev.desc.product_bcd % 65536)
  unfolding setup_callback route_request finish_setup dev_request get_descriptor send_written
      ctrl_send_data device_desc
  device_desc_lem w is = ground arith

  -- The configuration descriptor states its own length: as long as it has fewer than 65536 bytes,
  -- bytes 2 and 3 are the number of bytes written, which is the length that is sent.
  pub config_desc_length :
      (w : World S)
      → length (config_desc p c w).1 < 65536
      → ((config_desc p c w).0 ≡ length (config_desc p c w).1)
        × (get_or (config_desc p c w).1 2 0 + 256 * get_or (config_desc p c w).1 3 0
            ≡ length (config_desc p c w).1)
  unfolding config_desc
  config_desc_length w h = ground arith
