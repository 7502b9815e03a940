-- ===== src/Tests/Storage.antt =====
-- Reads from a logical unit of 16 blocks.
use usbdevice.Base.{◌⊎◌, inl, List, false, ◌*◌, ◌≡◌, true, ℕ, [], ◌∷◌, refl, arith, inr}
use usbdevice.Device.{
  Device, pd_ep_set_stall, e_ok, out_ep, direction_out, SetupRequest, set_transfer_length,
  set_ep_state, state_stall,
}
use usbdevice.Msc.{
  MscState, command_out, stall, data_in, status_in, normal, cmd_passed, CommandBlock, lu_read,
  LogicalUnit, MscCtx,
}
use usbdevice.Msc.Blocks.{read10, in_data, illegal_request}
use usbdevice.Msc.Medium.{AllInUnit, InMedium, read10_wraps}
use usbdevice.Msc.Reading.{IsReading, serve, serve_ends}
use usbdevice.Msc.Transport.{out_data}
use usbdevice.Msc.Wrapper.{Answers, wrapper-Answers}
use usbdevice.Msc.Recovery.{
  bad_cbw_locks, LockedEvent, locked_out, locked_in, host_event, halt_cleared, meanwhile, changed,
}
use usbdevice.Msc.Run.{MscEvent, out_event, in_event, run, run-InMedium}
use usbdevice.Tests.{platform, device, get_status_setup}

abbrev unit : LogicalUnit
unit = record {
  read = λ l. (e_ok, 1 ∷ 2 ∷ []);
  write = λ l. e_ok;
  block_count = 16;
  block_size = 512;
  is_ready = true;
  is_writable = true;
  has_init = true;
  has_deinit = false;
  inquiry = 0 ∷ 0 ∷ 2 ∷ 2 ∷ 32 ∷ [];
}

-- READ(10) of `n` blocks from the block that the four bytes `b` give.
abbrev pub read_command : ℕ → ℕ → CommandBlock
read_command b n = record {
  signature = 0x43425355;
  tag = 1;
  data_length = 512 * n;
  flags = 0x80;
  lun = 0;
  cb_length = 10;
  cb = 0x28 ∷ 0 ∷ b ∷ b ∷ b ∷ b ∷ 0 ∷ 0 ∷ n ∷ 0 ∷ [];
}

abbrev pub storage : CommandBlock → MscState → ℕ → MscCtx
storage b s rem = record {
  itf = record {
    self = 0;
    lus = λ l. unit;
    out_ep_num = 0x01;
    in_ep_num = 0x81;
    max_lun = 0;
    buffer = [];
    cbw = b;
    csw = record { signature = 0x53425355; tag = 1; data_residue = rem; status = cmd_passed };
    state = s;
    status = normal;
    sense_key = 0;
    sense_asc = 0;
    address = 0;
    rem_length = rem;
    log = [];
  };
  dev = device get_status_setup 1;
}

ready_storage-IsReading : IsReading (storage (read_command 0 3) data_in 1536).itf
ready_storage-IsReading = record {
  state_in = refl;
  passed = refl;
  reads = λ l. refl;
  within = omega arith;
  word = omega arith;
}

serve_ends_example :
    let i = (serve platform 3 (storage (read_command 0 3) data_in 1536)).itf in
    (i.state ≡ status_in)
    × (i.rem_length ≡ 0)
    × (i.csw.data_residue ≡ 0)
    × (i.csw.status ≡ cmd_passed)
serve_ends_example =
    serve_ends platform 3 (storage (read_command 0 3) data_in 1536) ready_storage-IsReading
      (omega arith) (omega arith)

read10_wraps_example :
    (read10 platform (storage (read_command 0xFF 1) command_out 0)).1.itf.log
    ≡ lu_read 0 0x7FFFFF 1 ∷ []
read10_wraps_example =
    read10_wraps platform (storage (read_command 0xFF 1) command_out 0) refl refl (omega arith) refl
      refl refl

-- The same with the command wrapper just received.
abbrev wrapped : CommandBlock → MscState → ℕ → MscCtx
wrapped b s rem =
    let c = storage b s rem in record c { dev = set_transfer_length (out_ep 1) 31 c.dev }

abbrev reset_setup : SetupRequest
reset_setup = record get_status_setup {
  type = 1;
  direction = direction_out;
  request = 0xFF;
  recipient = 1;
  length = 0;
}

-- A read of three blocks: the command wrapper, and the end of the first transfer.
abbrev read_events : List (MscEvent × Device)
read_events =
    (out_event (out_ep 1) (read_command 0 3) [], (wrapped (read_command 0 3) command_out 0).dev)
    ∷ (in_event, device get_status_setup 1)
    ∷ []

idle_storage-InMedium : InMedium (storage (read_command 0 3) command_out 0).itf
idle_storage-InMedium = record {
  sized = (omega arith, omega arith);
  rest = λ h. omega arith;
  inside = tt;
}

run-InMedium_example :
    AllInUnit
      (λ l. unit)
      (run platform read_events (storage (read_command 0 3) command_out 0)).itf.log
run-InMedium_example =
    run-InMedium platform read_events (storage (read_command 0 3) command_out 0)
      (((omega arith, omega arith), omega arith), (tt, tt)) idle_storage-InMedium

wrapper-Answers_example :
    let c = wrapped (read_command 0 3) command_out 0 in
    Answers (out_data platform (out_ep 1) c).itf
    × ((c.itf.state ≡ command_out) × (in_data platform c ≡ c) ⊎ Answers (in_data platform c).itf)
wrapper-Answers_example =
    wrapper-Answers platform (out_ep 1) (wrapped (read_command 0 3) command_out 0) (inl refl)
      (omega arith)

-- A wrapper with another signature.
abbrev bad_wrapper : MscCtx
bad_wrapper = wrapped (record (read_command 0 3) { signature = 0 }) command_out 0

-- The host clears the halt of both endpoints.
abbrev endings : List LockedEvent
endings =
    host_event (halt_cleared platform 0x01)
    ∷ locked_out (out_ep 1)
    ∷ host_event (halt_cleared platform 0x81)
    ∷ locked_in
    ∷ []

bad_cbw_locks_example :
    let v = out_data platform (out_ep 1) bad_wrapper in
    (v.dev.calls ≡ pd_ep_set_stall 0x81 ∷ pd_ep_set_stall 0x01 ∷ [])
    × (v.itf.sense_key ≡ illegal_request)
    × (v.itf.log ≡ [])
    × ((meanwhile platform endings v).itf ≡ v.itf)
    × ((meanwhile platform endings v).dev ≡ changed endings v.dev)
bad_cbw_locks_example =
    bad_cbw_locks platform (out_ep 1) endings bad_wrapper refl (inr (inl (λ e. omega (arith, e))))

-- The host resets the interface after an error.
abbrev stalled_storage : MscCtx
stalled_storage =
    let c = storage (read_command 0 3) stall 0 in
    record c { dev = set_ep_state (out_ep 1) state_stall (record c.dev { setup = reset_setup }) }

-- MODE SENSE(10) for 192 bytes.
abbrev mode_sense : MscCtx
mode_sense =
    wrapped
      (record (read_command 0 0) {
        data_length = 192;
        cb = 0x5A ∷ 0 ∷ 0x3F ∷ 0 ∷ 0 ∷ 0 ∷ 0 ∷ 0 ∷ 192 ∷ 0 ∷ [];
      })
      command_out 0
