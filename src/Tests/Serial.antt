-- ===== src/Tests/Serial.antt =====
-- A serial port: its transfers, its line coding and its descriptors.
use usbdevice.Base.{length, List, ℕ, ◌≡◌, ◌∷◌, [], refl, arith, true, false, none, some}
use usbdevice.Device.{
  direction_out, state_setup, in_ep, out_ep, set_ep_state, set_transfer_data, SetupRequest,
}
use usbdevice.Cdc.{LineCoding, Cdc, CdcCtx, CdcOptions, CdcApp, on_cdc, in_data}
use usbdevice.Cdc.Transmit.{finish, whole_transfer_told}
use usbdevice.Console.{Console, done, write, read}
use usbdevice.Console.Queue.{HasPut}
use usbdevice.Console.Fetch.{HasTaken}
use usbdevice.Console.Streams.{write_queues, read_dequeues}
use usbdevice.Tests.{platform, device, get_status_setup}

abbrev options : CdcOptions
options = record { notep_used = true; control_line_used = true; break_support = false }

-- The application counts what it was told in the stored line rate.
abbrev noted : ℕ → ℕ → CdcCtx → CdcCtx
noted at len c =
    on_cdc (λ (i : Cdc). record i { line_coding = record i.line_coding { dte_rate = len } }) c

abbrev opened_port : LineCoding → CdcCtx → CdcCtx
opened_port k c = on_cdc (λ (i : Cdc). record i { protocol = 1 }) c

abbrev port_app : CdcApp
port_app = record {
  open_port = some opened_port;
  close_port = none;
  received = none;
  transmitted = some noted;
  set_ctrl_line = none;
  send_break = none;
}

-- SET_LINE_CODING
abbrev coding_setup : SetupRequest
coding_setup = record get_status_setup {
  recipient = 1;
  type = 1;
  direction = direction_out;
  request = 0x20;
  length = 7;
}

abbrev port : SetupRequest → CdcCtx
port s = record {
  itf = record {
    self = 0;
    protocol = 0;
    out_ep_num = 0x01;
    in_ep_num = 0x81;
    not_ep_num = 0x83;
    line_coding = record { dte_rate = 9600; char_format = 0; parity_type = 0; data_bits = 8 };
    transmit_length = 0;
  };
  dev = set_ep_state (out_ep 0) state_setup (device s 1);
}

-- A transfer of 64 bytes from the address 1000 has ended.
abbrev sent_port : CdcCtx
sent_port =
    let c = port get_status_setup in record c { dev = set_transfer_data (in_ep 1) 1064 c.dev }

whole_transfer_told_example :
    let v = finish (in_ep 1) (in_data platform options port_app (in_ep 1) sent_port) in
    in_data platform options port_app (in_ep 1) v
    ≡ noted 1000 64 (on_cdc (λ (i : Cdc). record i { transmit_length = 0 }) v)
whole_transfer_told_example =
    whole_transfer_told platform options port_app 1 sent_port refl (omega arith) refl refl
      (λ a x l. refl) (λ a x y. omega arith)

-- A console on the port: eight bytes of room, of which four at the end of the buffer are held.
abbrev console : Console
console = record {
  input = record { size = 8; at = 3000; head = 6; tail = 2; buffer = λ n. n };
  output = record { size = 8; at = 4000; head = 1; tail = 6; buffer = λ n. n };
  port = port get_status_setup;
}

abbrev typed : List ℕ
typed = 65 ∷ 66 ∷ 67 ∷ []

write_queues_example :
    let (r, v) = write platform options port_app typed console in
    (r ≡ done 3) × HasPut typed console.input v.input
write_queues_example =
    write_queues platform options port_app typed console
      (record { head_inside = omega arith; tail_inside = omega arith }) refl (omega arith)

read_dequeues_example :
    let (xs, (r, v)) = read platform options port_app 3 console in
    (r ≡ done (length xs)) × HasTaken 3 console.output xs v.output
read_dequeues_example =
    read_dequeues platform options port_app 3 console
      (record { head_inside = omega arith; tail_inside = omega arith }) refl
