-- ===== src/Tests/Firmware.antt =====
-- Uploads and downloads of firmware.
use usbdevice.Base.{ℕ, ◌≡◌, true, false, none, some, List, [], ◌∷◌, refl, arith, inl, inr}
use usbdevice.Device.{
  e_ok, Direction, direction_out, direction_in, SetupRequest, ctrl_data_buffer, pd_ep_send,
  state_setup, set_ep_state, out_ep,
}
use usbdevice.Dfu.{
  State, app_idle, idle, dnload_idle, upload_idle, error, error_none, error_firmware, AppCall,
  app_erase, app_write, app_read, reboot, App, Dfu, Ctx,
}
use usbdevice.Dfu.Requests.{detach, advance, upload, start_block}
use usbdevice.Dfu.Stages.{init, deinit, boot_init}
use usbdevice.Dfu.Events.{setup_event, data_event, init_event, deinit_event, run}
use usbdevice.Dfu.Region.{InRegion}
use usbdevice.Dfu.Safety.{run-InRegion, deinit-InRegion}
use usbdevice.Dfu.Boot.{detach_boots}
use usbdevice.Dfu.Download.{Writes, IsNextBlock, load, load_lem}
use usbdevice.Dfu.Upload.{IsNextRead, upload_lem}
use usbdevice.Tests.{platform, device}

abbrev firmware : List AppCall → List ℕ
firmware l = 1 ∷ 2 ∷ 3 ∷ []

-- Firmware of 100 bytes at the address 1000.
abbrev pub app : App
app = record {
  firmware_address = 1000;
  total_size = 100;
  has_init = false;
  has_deinit = true;
  manifest_fn = none;
  erase = some (λ l. 0);
  write = some (λ l. 0);
  read = some firmware;
  get_timeout = none;
}

abbrev locked_app : App
locked_app = record app { read = none }

abbrev pub handle : State → ℕ → ℕ → Dfu
handle s addr n = record {
  self = 0;
  app = app;
  has_reboot = true;
  detach_timeout = 0;
  tag0 = 0;
  tag1 = 0;
  block_num = n;
  block_length = 0;
  address = addr;
  status = error_none;
  poll_timeout = 0;
  state = s;
  i_string = 0;
  log = [];
}

-- A class request: direction, request, wValue, wLength.
abbrev pub request : Direction → ℕ → ℕ → ℕ → SetupRequest
request d q v l = record {
  recipient = 1;
  type = 1;
  direction = d;
  request = q;
  value = v;
  index = 0;
  length = l;
}

abbrev pub mounted : SetupRequest → Dfu → Ctx
mounted s i = record { itf = i; dev = set_ep_state (out_ep 0) state_setup (device s 1) }

abbrev pub get_status_request : SetupRequest
get_status_request = request direction_in 3 0 6

abbrev first_block : Ctx
first_block = mounted (request direction_out 1 0 2) (handle idle 1000 0)

pub app-Writes : Writes app
app-Writes = record { can_erase = refl; can_write = refl; erases = λ l. refl; writes = λ l. refl }

first_block-IsNextBlock : IsNextBlock platform first_block
unfolding start_block
first_block-IsNextBlock = record {
  asks = refl;
  outward = refl;
  in_setup = refl;
  ready = inl refl;
  numbered = refl;
  some_bytes = omega arith;
  one_buffer = omega arith;
  ends_before = omega arith;
}

load_lem_example :
    let v = (load platform true deinit get_status_request (7 ∷ 8 ∷ []) first_block).itf in
    (v.log ≡ app_write 1000 (7 ∷ 8 ∷ []) 2 ∷ app_erase 1000 ∷ [])
    × (v.address ≡ 1002)
    × (v.status ≡ error_none)
    × ((advance v).state ≡ dnload_idle)
unfolding start_block
load_lem_example =
    load_lem platform true deinit get_status_request (7 ∷ 8 ∷ []) first_block app-Writes
      (omega arith) first_block-IsNextBlock refl refl refl

pub handle-InRegion : InRegion platform (handle idle 1000 0)
handle-InRegion = record {
  fits = omega arith;
  low = λ h. omega arith;
  high = λ h. omega arith;
  block = λ h. omega arith;
  app_quiet = λ h. refl;
  inside = tt;
}

-- The first block of a download, with the request for its status, then a removal of the interface.
run-InRegion_example :
    InRegion platform
      (run platform true deinit
        ((init_event, device get_status_request 1)
          ∷ (setup_event, device (request direction_out 1 0 2) 1)
          ∷ (setup_event, device get_status_request 1)
          ∷ (data_event, device get_status_request 1)
          ∷ (deinit_event, device get_status_request 0)
          ∷ [])
        first_block).itf
run-InRegion_example =
    run-InRegion platform true deinit (deinit-InRegion platform true)
      ((init_event, device get_status_request 1)
        ∷ (setup_event, device (request direction_out 1 0 2) 1)
        ∷ (setup_event, device get_status_request 1)
        ∷ (data_event, device get_status_request 1)
        ∷ (deinit_event, device get_status_request 0)
        ∷ [])
      first_block handle-InRegion

-- The last two bytes of the firmware.
abbrev last_block : Ctx
last_block = mounted (request direction_out 1 7 2) (handle dnload_idle 1098 6)

detach_boots_example :
    let (answer, d) = detach true (mounted get_status_request (handle app_idle 0 0)) in
    let v = d.itf in
    let b = boot_init true app v in
    let b' = boot_init true app (init (mounted get_status_request b)).itf in
    (answer ≡ e_ok)
    × (v.log ≡ reboot ∷ [])
    × (b.state ≡ idle)
    × (b.status ≡ error_none)
    × (b'.state ≡ error)
    × (b'.status ≡ error_firmware)
unfolding detach
detach_boots_example = detach_boots true (mounted get_status_request (handle app_idle 0 0)) app refl

-- A read of 64 bytes, of which 40 are left.
abbrev last_read : Ctx
last_read = mounted (request direction_in 2 4 64) (handle upload_idle 1060 3)

last_read-IsNextRead : IsNextRead platform last_read
unfolding start_block
last_read-IsNextRead = record {
  inward = refl;
  in_setup = refl;
  ready = inr refl;
  numbered = refl;
  some_bytes = omega arith;
  one_buffer = omega arith;
  byte_count = omega arith;
  low = omega arith;
  high = omega arith;
}

upload_lem_example :
    let v = upload platform last_read in
    (v.0 ≡ e_ok)
    × (v.1.itf.log ≡ app_read 1060 40 ∷ [])
    × (v.1.dev.calls ≡ pd_ep_send 0x80 ctrl_data_buffer 40 ∷ [])
    × (v.1.itf.address ≡ 1100)
    × (v.1.itf.state ≡ idle)
unfolding start_block
upload_lem_example = upload_lem platform firmware last_read refl (omega arith) last_read-IsNextRead
