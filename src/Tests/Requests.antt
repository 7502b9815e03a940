-- ===== src/Tests/Requests.antt =====
-- Control requests of the host to the device of the tests.
use usbdevice.Base.{ℕ, ◌*◌, ◌+◌, ◌≡◌, true, [], ◌∷◌, take, refl, arith, get_or, if◌then◌else◌}
use usbdevice.Device.{
  Direction, direction_out, direction_in, SetupRequest, null, ctrl_data_buffer, e_ok, state_status,
  state_data, pd_set_address, pd_ep_send, set_ep_state, out_ep, state_setup, touch_if,
}
use usbdevice.World.{World, on_dev, set_alt_selector, if_class_init, if_class_deinit}
use usbdevice.Descriptor.{device_desc}
use usbdevice.Interface.{if_request}
use usbdevice.Interface.Setting.{set_interface_lem}
use usbdevice.Request.{dev_request}
use usbdevice.Request.Features.{features_reported, asking, IsWakeupRequest}
use usbdevice.Callback.{setup_callback, ep_in_callback, ctrl_in_callback, needs_zlp}
use usbdevice.Callback.Address.{set_address_deferred, IsSetAddress}
use usbdevice.Callback.Halt.{halt_reported, with_setup, IsEpRequest}
use usbdevice.Callback.Transfer.{in_transfer_ends}
use usbdevice.Callback.Describe.{device_desc_lem, IsGetDescriptor}
use usbdevice.Tests.{
  platform, class, world, device, get_status_setup, class-IsTame_init, class-IsTame_deinit,
}

-- Standard requests: recipient, direction, request, wValue, wIndex, wLength.
abbrev request : ℕ → Direction → ℕ → ℕ → ℕ → ℕ → SetupRequest
request r d q v i l = record {
  recipient = r;
  type = 0;
  direction = d;
  request = q;
  value = v;
  index = i;
  length = l;
}

abbrev set_address_7 : SetupRequest
set_address_7 = request 0 direction_out 5 7 0 0

set_address_7-IsSetAddress : IsSetAddress set_address_7
set_address_7-IsSetAddress = record {
  to_device = refl;
  standard = refl;
  outward = refl;
  asks = refl;
  no_index = refl;
  no_length = refl;
}

set_address_deferred_example :
    (ep_in_callback platform class 0
      (setup_callback platform class (world set_address_7 0))).dev.calls
    ≡ pd_set_address 7 ∷ pd_ep_send 0x80 null 0 ∷ []
set_address_deferred_example =
    set_address_deferred platform class (world set_address_7 0) set_address_7-IsSetAddress refl refl

abbrev set_halt : SetupRequest
set_halt = request 2 direction_out 3 0 0x81 0

abbrev ep_status : SetupRequest
ep_status = request 2 direction_in 0 0 0x81 2

set_halt-IsEpRequest : IsEpRequest platform 0x81 3 set_halt
set_halt-IsEpRequest = record {
  to_endpoint = refl;
  standard = refl;
  asks = refl;
  of_addr = refl;
  byte = omega arith;
  number_pos = omega arith;
  number_lt = omega arith;
}

ep_status-IsEpRequest : IsEpRequest platform 0x81 0 ep_status
ep_status-IsEpRequest = record {
  to_endpoint = refl;
  standard = refl;
  asks = refl;
  of_addr = refl;
  byte = omega arith;
  number_pos = omega arith;
  number_lt = omega arith;
}

halt_reported_example :
    let v = setup_callback platform class (world set_halt 1) in
    let u = setup_callback platform class (with_setup ep_status v) in
    (u.dev.calls ≡ pd_ep_send 0x80 ctrl_data_buffer 2 ∷ v.dev.calls)
    × (take 2 u.dev.ctrl_data ≡ 1 ∷ 0 ∷ [])
halt_reported_example =
    halt_reported platform class 0x81 (world set_halt 1) ep_status set_halt-IsEpRequest refl refl
      (omega arith) ep_status-IsEpRequest refl (omega arith)

-- Endpoint 0x41: number 1, with the reserved bit 6.
abbrev set_halt_reserved : SetupRequest
set_halt_reserved = request 2 direction_out 3 0 0x41 0

-- SET_INTERFACE to interface 1, setting 1, and one for an interface 9.
abbrev set_interface_1 : SetupRequest
set_interface_1 = request 1 direction_out 11 1 1 0

abbrev set_interface_9 : SetupRequest
set_interface_9 = request 1 direction_out 11 1 9 0

set_interface_lem_example :
    let v = if_request platform class (world set_interface_1 1) in
    let r = (world set_interface_1 1).dev.ifs 1 in
    let u = on_dev (touch_if platform 1) (world set_interface_1 1) in
    (v.0 ≡ e_ok)
    × (v.1 ≡ if_class_init class r (set_alt_selector r 1 (if_class_deinit class r u)))
    × ((v.1.itf r).alt_selector ≡ 1)
set_interface_lem_example =
    set_interface_lem platform class class-IsTame_init class-IsTame_deinit (world set_interface_1 1)
      refl refl (omega arith) (omega arith)

abbrev set_wakeup : SetupRequest
set_wakeup = request 0 direction_out 3 1 0 0

set_wakeup-IsWakeupRequest : IsWakeupRequest 3 set_wakeup
set_wakeup-IsWakeupRequest = record { standard = refl; asks = refl; feature = refl }

abbrev in_setup_world : SetupRequest → World ℕ
in_setup_world s = on_dev (λ d. set_ep_state (out_ep 0) state_setup d) (world s 0)

features_reported_example :
    let v =
      dev_request platform class
        (asking get_status_setup (dev_request platform class (in_setup_world set_wakeup)).1) in
    (v.0 ≡ e_ok)
    × (v.1.dev.calls ≡ pd_ep_send 0x80 ctrl_data_buffer 2 ∷ [])
    × (take 2 v.1.dev.ctrl_data ≡ 3 ∷ 0 ∷ [])
features_reported_example =
    features_reported platform class true (in_setup_world set_wakeup) get_status_setup
      set_wakeup-IsWakeupRequest refl refl refl (omega arith) refl

in_transfer_ends_example :
    let w = world get_status_setup 1 in
    let w' = if needs_zlp w.dev then ctrl_in_callback platform class w else w in
    ((ctrl_in_callback platform class w').dev.ep_out 0).state ≡ state_status
in_transfer_ends_example =
    in_transfer_ends platform class (world get_status_setup 1) (λ l. refl) refl (omega arith)

abbrev get_device : SetupRequest
get_device = request 0 direction_in 6 0x0100 0 64

get_device-IsGetDescriptor : IsGetDescriptor 1 get_device
get_device-IsGetDescriptor = record {
  to_device = refl;
  standard = refl;
  inward = refl;
  asks = refl;
  of_type = refl;
  length_pos = omega arith;
}

device_desc_lem_example :
    let d = (setup_callback platform class (world get_device 0)).dev in
    (d.calls ≡ pd_ep_send 0x80 ctrl_data_buffer 18 ∷ [])
    × ((d.ep_in 0).state ≡ state_data)
    × (take 18 d.ctrl_data ≡ device_desc platform (device get_device 0))
    × (get_or d.ctrl_data 8 0 + 256 * get_or d.ctrl_data 9 0 ≡ 0x0483)
    × (get_or d.ctrl_data 10 0 + 256 * get_or d.ctrl_data 11 0 ≡ 0x5740)
    × (get_or d.ctrl_data 12 0 + 256 * get_or d.ctrl_data 13 0 ≡ 0x0123)
device_desc_lem_example =
    device_desc_lem platform class (world get_device 0) get_device-IsGetDescriptor
