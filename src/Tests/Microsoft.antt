-- ===== src/Tests/Microsoft.antt =====
-- A device with two functions, one of them at two places, and their Microsoft descriptors.
use usbdevice.Base.{
  ℕ, ◌+◌, ◌*◌, ◌<◌, ◌≡◌, arith, Option, none, some, List, [], ◌∷◌, length, drop, get_or,
  if◌then◌else◌, ◌==◌, take, refl, true, false,
}
use usbdevice.Device.{Device, SetupRequest, state_setup, e_ok, pd_ep_send, ctrl_data_buffer}
use usbdevice.Microsoft.{functions, ms_os_desc, desc_set, conf_subset, subsets, copy_string}
use usbdevice.Microsoft.Sizes.{read_subsets, named, set_read}
use usbdevice.World.{World}
use usbdevice.Microsoft.Store.{
  StoreOptions, version_2, store_dev_request, get_store_descriptor, get_bos, bos_desc,
}
use usbdevice.Microsoft.Found.{AsksStore, AsksSet, store_leads}
use usbdevice.Request.Features.{asking}
use usbdevice.Control.{ctrl_send_data}
use usbdevice.Descriptor.{send_written}
use usbdevice.Microsoft.Functions.{starts}
use usbdevice.Tests.{device, get_status_setup, platform, class, world, endpoint}

-- The interfaces 0 and 1 have the reference 0, the interface 2 the reference 1.
abbrev composite : Device
composite = record (device get_status_setup 1) { ifs = λ n. if n == 2 then 1 else 0; if_count = 3 }

abbrev win_usb : ℕ → Option (List ℕ)
win_usb r = if r == 1 then some (b'W' ∷ b'I' ∷ b'N' ∷ b'U' ∷ b'S' ∷ b'B' ∷ []) else none

abbrev third : ℕ
third = 2

composite_short : length (ms_os_desc win_usb composite) < 65536
unfolding ms_os_desc desc_set conf_subset subsets copy_string functions
composite_short = omega arith

set_read_example :
    let desc = ms_os_desc win_usb composite in
    (read_subsets 5 (drop 18 desc) ≡ named win_usb (starts composite.ifs 3 0))
    × (get_or desc 8 0 + 256 * get_or desc 9 0 ≡ length desc)
    × (get_or desc 16 0 + 256 * get_or desc 17 0 ≡ length (drop 10 desc))
unfolding functions starts
set_read_example = set_read win_usb 5 composite (omega arith) composite_short

abbrev store_options : StoreOptions
store_options = record { version = version_2; lpm_support = true; lpm = false }

-- The request for the BOS descriptor, and the one for the set.
abbrev get_bos_setup : SetupRequest
get_bos_setup = record get_status_setup { request = 6; value = 256 * 15; length = 255 }

abbrev get_set_setup : SetupRequest
get_set_setup = record get_status_setup { type = 2; request = 1; index = 7; length = 46 }

abbrev composite_world : World ℕ
composite_world = record (world get_bos_setup 1) {
  dev = record composite {
    setup = get_bos_setup;
    ep_out = λ n. record (endpoint n) { state = state_setup };
  };
}

get_bos_setup-AsksStore : AsksStore get_bos_setup
get_bos_setup-AsksStore = record { standard = refl; asks = refl; bos = refl; inward = refl }

get_set_setup-AsksSet : AsksSet get_set_setup
get_set_setup-AsksSet = record { vendor = refl; asks = refl; index = refl; inward = refl }

store_leads_example :
    let v = store_dev_request platform class store_options win_usb composite_world in
    let u = store_dev_request platform class store_options win_usb (asking get_set_setup v.1) in
    (v.0 ≡ e_ok)
    × (u.0 ≡ e_ok)
    × (take 46 u.1.dev.ctrl_data ≡ ms_os_desc win_usb composite)
    × (u.1.dev.calls ≡ pd_ep_send 0x80 ctrl_data_buffer 46 ∷ v.1.dev.calls)
unfolding ms_os_desc desc_set conf_subset subsets copy_string functions store_dev_request
    get_store_descriptor get_bos send_written bos_desc ctrl_send_data
store_leads_example =
    store_leads platform class store_options win_usb composite_world get_set_setup refl
      (omega arith) (omega arith) refl get_bos_setup-AsksStore get_set_setup-AsksSet refl
