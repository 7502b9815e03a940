-- ===== src/Tests/Core.antt =====
-- The configuration, the endpoints and the descriptors of the device of the tests.
use usbdevice.Base.{◌≡◌, [], ◌∷◌, arith, ℕ, take, refl}
use usbdevice.Device.{e_ok, state_setup, pd_ep_send, ctrl_data_buffer, SetupRequest}
use usbdevice.Text.Strings.{ascii, read_units}
use usbdevice.Descriptor.{get_descriptor}
use usbdevice.Descriptor.Strings.{vendor_name_sent}
use usbdevice.World.{World}
use usbdevice.Interface.{if_config}
use usbdevice.Interface.Change.{if_config_lem, change}
use usbdevice.Tests.{
  platform, class, world, get_status_setup, class-IsTame_init, class-IsTame_deinit, description,
  endpoint, device,
}

if_config_lem_example :
    if_config platform class 0 (world get_status_setup 1)
    ≡ change platform class class-IsTame_init class-IsTame_deinit 0 (world get_status_setup 1)
if_config_lem_example =
    if_config_lem platform class class-IsTame_init class-IsTame_deinit 0 (world get_status_setup 1)
      (omega arith)

-- The request for the name of the vendor, behind whose terminator another byte stands.
abbrev get_vendor_name : SetupRequest
get_vendor_name = record get_status_setup { request = 6; value = 0x310; length = 255 }

abbrev named_world : World ℕ
named_world = record (world get_vendor_name 1) {
  dev = record (device get_vendor_name 1) {
    desc = record description { vendor_name = b'a' ∷ b'b' ∷ b'c' ∷ 0 ∷ 7 ∷ [] };
    ep_out = λ n. record (endpoint n) { state = state_setup };
  };
}

vendor_name_sent_example :
    let v = get_descriptor platform class named_world in
    (v.0 ≡ e_ok)
    × (v.1.dev.calls ≡ pd_ep_send 0x80 ctrl_data_buffer 8 ∷ [])
    × (read_units (take 8 v.1.dev.ctrl_data) ≡ 776 ∷ b'a' ∷ b'b' ∷ b'c' ∷ [])
vendor_name_sent_example =
    vendor_name_sent platform class named_world (b'a' ∷ b'b' ∷ b'c' ∷ [])
      (ascii b'a' b'b' (b'c' ∷ []) (7 ∷ []) (omega arith, (omega arith, (omega arith, tt)))
        (omega arith, (omega arith, (omega arith, tt))))
      (omega arith) refl (omega arith) refl refl
