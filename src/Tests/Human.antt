-- ===== src/Tests/Human.antt =====
-- A human interface device with reports, and several interfaces on one device.
use usbdevice.Base.{ℕ, ◌≡◌, ◌∷◌, [], List, arith, false, none, some}
use usbdevice.Device.{
  direction_out, state_setup, memory, out_ep, in_ep, Buffer, set_ep_state, SetupRequest, Device,
}
use usbdevice.Endpoint.{ep_send}
use usbdevice.Hid.{ReportConfig, HidCtx, HidOptions, HidApp, on_hid_result, report_in, init}
use usbdevice.Hid.Context.{
  HidEvent, hid_setup_event, hid_in_event, run, IsCaller, nothing, reported, elsewhere,
  hid_out_event, report_goes_in,
}
use usbdevice.Mounts.{
  Part, human_part, IsMounted, mount_all, mount_all-IsMounted, reboot_part, firmware_part,
}
use usbdevice.Tests.Firmware.{handle}
use usbdevice.Dfu.{app_idle, idle}
use usbdevice.Tests.{platform, device, get_status_setup}

abbrev pub options : HidOptions
options = record { out_support = false; report_strings = false }

abbrev pub config : ReportConfig
config = record {
  report_desc = 0x05 ∷ 0x01 ∷ [];
  desc_length = 2;
  max_id = 1;
  input_interval_ms = 10;
  input_max_size = 100;
  feature_max_size = 8;
  output_interval_ms = 10;
  output_max_size = 8;
}

-- The application answers a request with the four bytes at 1000.
abbrev answered : ℕ → ℕ → HidCtx → HidCtx
answered type id x = (report_in platform 1000 4 x).1

-- It echoes a report that it is given, and remembers the idle time.
abbrev echoed : ℕ → Buffer → ℕ → HidCtx → HidCtx
echoed type at len x = (report_in platform 1000 4 x).1

abbrev slowed : ℕ → ℕ → HidCtx → HidCtx
slowed ms id x = record x { ram = λ a. ms }

abbrev pub keys : HidApp
keys = record {
  name = [];
  report = config;
  app_init = none;
  app_deinit = none;
  set_report = some echoed;
  get_report = some answered;
  set_idle = some slowed;
  in_report_sent = none;
  app_string = none;
}

abbrev class_setup : ℕ → ℕ → SetupRequest
class_setup q v = record get_status_setup {
  recipient = 1;
  type = 1;
  request = q;
  value = v;
  length = 64;
}

abbrev pub human : SetupRequest → HidCtx
human s = record {
  itf = record { self = 0; in_ep_num = 0x81; out_ep_num = 0; idle_rate = 2; request = 0 };
  dev = set_ep_state (out_ep 0) state_setup (device s 1);
  ram = λ a. 1;
}

abbrev set_report_setup : SetupRequest
set_report_setup = record (class_setup 0x09 0x200) { direction = direction_out }

keys-IsCaller : IsCaller platform options keys
keys-IsCaller = record {
  calls_init = λ c. nothing;
  calls_deinit = λ c. nothing;
  calls_idle = λ ms id c. elsewhere (λ d. d) (λ a. ms) nothing;
  calls_sent = λ id c. nothing;
  calls_report = λ type report len c. reported 1000 4 nothing;
}

abbrev human_events : List HidEvent
human_events = hid_setup_event ∷ hid_out_event (out_ep 1) ∷ hid_in_event (in_ep 1) ∷ []

report_goes_in_example :
    let v =
      run platform options keys human_events
        (init platform options keys (human (class_setup 0x01 0x101))) in
    report_in platform 1000 4 v ≡ on_hid_result (ep_send platform v.itf.in_ep_num (memory 1000) 4) v
report_goes_in_example =
    report_goes_in platform options keys keys-IsCaller human_events 1000 4
      (human (class_setup 0x01 0x101))

-- Four interfaces on a device with two places.
abbrev parts : List Part
parts =
    let x = human_part options keys (λ a. 0) (human get_status_setup).itf in
    reboot_part (handle app_idle 0 0) ∷ x ∷ x ∷ firmware_part (handle idle 0 0) ∷ []

abbrev empty_device : Device
empty_device = record (device get_status_setup 0) { if_count = 0 }

empty_device-IsMounted : IsMounted platform empty_device
empty_device-IsMounted = record {
  count_le = omega arith;
  in_lt = λ n. omega arith;
  out_lt = λ n. omega arith;
}

mount_all-IsMounted_example : IsMounted platform (mount_all platform parts empty_device)
mount_all-IsMounted_example =
    mount_all-IsMounted platform (omega arith) parts empty_device empty_device-IsMounted
