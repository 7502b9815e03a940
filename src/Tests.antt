-- ===== src/Tests.antt =====
-- A small device for the tests: two interfaces of one class, which opens an endpoint.
pub mod Core
pub mod Alternates
pub mod Composite
pub mod Extension
pub mod Firmware
pub mod Requests
pub mod Storage
pub mod Serial
pub mod Human
pub mod Network
pub mod Microsoft
use usbdevice.Base.{◌+◌, ℕ, ◌==◌, Bool, true, false, none, some, List, [], ◌∷◌, refl, if◌then◌else◌}
use usbdevice.Device.{
  memory, ReturnType, direction_out, direction_in, speed_full, type_bulk, type_isochronous,
  state_idle, state_closed, SetupRequest, Endpoint, PdCall, pd_ep_open, pd_ep_close, pd_ep_send,
  pd_ep_receive, Platform, Description, Device, call,
}
use usbdevice.World.{
  Interface, World, Class, on_dev, if_class_init, if_class_deinit, if_class_in_data,
  if_class_out_data,
}
use usbdevice.Interface.Config.{IsTame}

-- The driver reports what it has sent.
abbrev pub sent_length : PdCall → ℕ → ℕ
sent_length (pd_ep_send a b n) l = n
sent_length (pd_ep_receive a b n) l = n
sent_length _ l = l

-- A send from the memory advances the pointer to the data.
abbrev pub sent_at : PdCall → ℕ → ℕ
sent_at (pd_ep_send a (memory x) n) y = x + n
sent_at _ y = y

abbrev pub platform : Platform
platform = record {
  max_if_count = 2;
  max_ep_count = 4;
  ep0_buffer_size = 256;
  serial_bcd_size = 4;
  hs_support = true;
  set_address_immediate = false;
  transfer = sent_length;
  transfer_at = sent_at;
}

abbrev pub description : Description
description = record {
  config_name = b'c' ∷ b'f' ∷ [];
  max_current_ma = 100;
  config_b = 0xC0;
  vendor_name = b'a' ∷ b'b' ∷ b'c' ∷ [];
  vendor_id = 0x0483;
  product_name = b'p' ∷ b'q' ∷ [];
  product_id = 0x5740;
  product_bcd = 0x0123;
  serial_number = 0x12 ∷ 0xAB ∷ [];
}

abbrev pub get_status_setup : SetupRequest
get_status_setup = record {
  recipient = 0;
  type = 0;
  direction = direction_in;
  request = 0;
  value = 0;
  index = 0;
  length = 2;
}

-- Endpoint 2 is isochronous.
abbrev pub endpoint : ℕ → Endpoint
endpoint n = record {
  transfer_data = 0;
  transfer_length = 64;
  max_packet_size = 64;
  type = if n == 2 then type_isochronous else type_bulk;
  state = state_idle;
  if_num = 0;
}

abbrev pub device : SetupRequest → ℕ → Device
device s n = record {
  desc = description;
  setup = s;
  speed = speed_full;
  self_powered = true;
  remote_wakeup = false;
  config_selector = n;
  if_count = 2;
  ifs = λ i. i;
  ep_in = endpoint;
  ep_out = endpoint;
  ctrl_data = [];
  calls = [];
  out_of_range = false;
}

abbrev pub opened : ℕ → World ℕ → World ℕ
opened r w = on_dev (call (pd_ep_open 0x81 type_bulk 64)) w

abbrev pub closed : ℕ → World ℕ → World ℕ
closed r w = on_dev (call (pd_ep_close 0x81)) w

abbrev pub class : Class ℕ
class = record {
  get_descriptor = λ s. some (λ r i w. 9 ∷ 4 ∷ i ∷ 0 ∷ 0 ∷ 0xFF ∷ 0 ∷ 0 ∷ 0 ∷ []);
  get_string = λ s. none;
  init = λ s. some opened;
  deinit = λ s. some closed;
  setup_stage = λ s. none;
  data_stage = λ s. none;
  out_data = λ s. none;
  in_data = λ s. none;
}

abbrev pub world : SetupRequest → ℕ → World ℕ
world s n = record {
  dev = device s n;
  itf = λ i. record { alt_selector = 1; alt_count = 2; body = 0 };
}

pub class-IsTame_init : IsTame ℕ (if_class_init class)
unfolding if_class_init
class-IsTame_init = record {
  keeps_count = λ r w. refl;
  keeps_ifs = λ r w. refl;
  keeps_config = λ r w. refl;
  keeps_alt = λ r q w. refl;
}

pub class-IsTame_deinit : IsTame ℕ (if_class_deinit class)
unfolding if_class_deinit
class-IsTame_deinit = record {
  keeps_count = λ r w. refl;
  keeps_ifs = λ r w. refl;
  keeps_config = λ r w. refl;
  keeps_alt = λ r q w. refl;
}
