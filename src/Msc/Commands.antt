-- ===== src/Msc/Commands.antt =====
-- The commands that move no blocks, and the dispatch of all commands: Class/MSC/usbd_msc_scsi.c.
use usbdevice.Base.{
  ℕ, ◌+◌, ◌-◌, ◌/◌, ◌%◌, not, ◌&&◌, List, [], ◌∷◌, ◌++◌, ltb, ◌==◌, if◌then◌else◌, take, get_or,
  overwrite, Bool, true, false,
}
use usbdevice.Device.{itf_field, buffer_field, Platform}
use usbdevice.Endpoint.{ep_send}
use usbdevice.Msc.{
  MscState, command_out, status_in, cmd_passed, LogicalUnit, Msc, MscCtx, current, be16, word_mod,
}
use usbdevice.Msc.Blocks.{put_sense_code, not_ready, illegal_request, on_msc, read10, write10}

-- `htons` and `htonl` as they lie in memory, the high byte first.
abbrev pub bytes16 : ℕ → List ℕ
bytes16 n = (n / 256 % 256) ∷ (n % 256) ∷ []

abbrev pub bytes32 : ℕ → List ℕ
bytes32 n = bytes16 (n / 65536) ++ bytes16 n

abbrev zeros_8 : List ℕ
zeros_8 = 0 ∷ 0 ∷ 0 ∷ 0 ∷ 0 ∷ 0 ∷ 0 ∷ 0 ∷ []

-- A response of `len` bytes, cut to what the command allocates.
abbrev pub cut : ℕ → ℕ → ℕ
cut len alloc = if ltb alloc len then alloc else len

abbrev fill : List ℕ → Msc → Msc
fill bytes i = record i { buffer = overwrite bytes i.buffer }

-- The number of the last block, `BlockCount - 1` in 32 bits.
abbrev pub last_block : LogicalUnit → ℕ
last_block lu = (lu.block_count + word_mod - 1) % word_mod

-- `SCSI_Inquiry`
unfoldable pub inquiry_command : Msc → ℕ × Msc
inquiry_command i =
    let alloc = be16 i.cbw.cb 3 in
    let len = get_or (current i).inquiry 4 0 + 4 in
    if get_or i.cbw.cb 1 0 == 0
    then (cut len alloc, fill (take len (current i).inquiry) i)
    else (cut 5 alloc, fill (0 ∷ 0 ∷ 0 ∷ 0 ∷ 0 ∷ []) i)

-- `SCSI_ReadCapacity10`
unfoldable pub read_capacity10 : Msc → ℕ × Msc
read_capacity10 i =
    if (current i).is_ready
    then (8, fill (bytes32 (last_block (current i)) ++ bytes32 (current i).block_size) i)
    else (0, put_sense_code not_ready 0x3A i)

-- `SCSI_ReadFormatCapacity`
unfoldable pub read_format_capacity : Msc → ℕ × Msc
read_format_capacity i = (
  cut 12 (be16 i.cbw.cb 7),
  fill
      (0
        ∷ 0
        ∷ 0
        ∷ 8
        ∷ (bytes32 (last_block (current i)) ++ (2 ∷ 0 ∷ bytes16 (current i).block_size)))
      i,
)

-- `SCSI_ModeSense6` and `SCSI_ModeSense10`: in the command structure of the latter, the allocation
-- length stands at the bytes 6 and 7.
unfoldable pub mode_sense6 : Msc → ℕ × Msc
mode_sense6 i = (cut 8 (get_or i.cbw.cb 4 0), fill zeros_8 i)

unfoldable pub mode_sense10 : Msc → ℕ × Msc
mode_sense10 i = (cut 8 (be16 i.cbw.cb 6), fill zeros_8 i)

-- `SCSI_RequestSense`
unfoldable pub request_sense : Msc → ℕ × Msc
request_sense i = (
  cut 18 (get_or i.cbw.cb 4 0),
  fill
      (0x70 ∷ 0 ∷ i.sense_key ∷ 0 ∷ 0 ∷ 0 ∷ 0 ∷ 11 ∷ 0 ∷ 0 ∷ 0 ∷ 0 ∷ i.sense_asc ∷ 0 ∷ 0 ∷ 0 ∷ 0 ∷ 0
        ∷ [])
      i,
)

-- `SCSI_StartStopUnit` and `SCSI_PreventAllowMediumRemoval` do nothing.
unfoldable pub start_stop_unit : Msc → ℕ × Msc
start_stop_unit i = (0, i)

unfoldable pub prevent_allow_medium_removal : Msc → ℕ × Msc
prevent_allow_medium_removal i = (0, i)

-- `SCSI_TestUnitReady`
unfoldable pub test_unit_ready : Msc → ℕ × Msc
test_unit_ready i =
    if not (i.cbw.data_length == 0)
    then (0, put_sense_code illegal_request 0x20 i)
    else if (current i).is_ready
    then (0, i)
    else (0, put_sense_code not_ready 0x3A i)

-- `SCSI_Verify10`: the range that is tested is the one of the last transfer.
unfoldable pub verify10 : Msc → ℕ × Msc
verify10 i =
    if not (get_or i.cbw.cb 1 0 / 2 % 2 == 0)
    then (0, put_sense_code illegal_request 0x24 i)
    else if ltb (current i).block_count ((i.address + i.rem_length) % word_mod)
    then (0, put_sense_code illegal_request 0x21 i)
    else (0, i)

-- A command that works on the handle alone.
abbrev pub on_handle : (Msc → ℕ × Msc) → MscCtx → ℕ × MscCtx
on_handle f c = ((f c.itf).0, record c { itf = (f c.itf).1 })

-- The switch over the operation code in `SCSI_ProcessCommand`.
unfoldable pub route_command : Platform → ℕ → MscCtx → ℕ × MscCtx
route_command p op c =
    if op == 0x28
    then read10 p c
    else if op == 0x2A
    then write10 p c
    else if op == 0x2F
    then on_handle verify10 c
    else if op == 0x12
    then on_handle inquiry_command c
    else if op == 0x23
    then on_handle read_format_capacity c
    else if op == 0x00
    then on_handle test_unit_ready c
    else if op == 0x03
    then on_handle request_sense c
    else if op == 0x1B
    then on_handle start_stop_unit c
    else if op == 0x1E
    then on_handle prevent_allow_medium_removal c
    else if op == 0x1A
    then on_handle mode_sense6 c
    else if op == 0x5A
    then on_handle mode_sense10 c
    else if op == 0x25
    then on_handle read_capacity10 c
    else (0, on_msc (put_sense_code illegal_request 0x20) c)

abbrev pub is_command_out : MscState → Bool
is_command_out command_out = true
is_command_out _ = false

-- What `SCSI_ProcessCommand` does with the length of the response: one that is not under way is sent.
unfoldable pub send_response : Platform → ℕ × MscCtx → MscCtx
send_response p (len, c) =
    let i = c.itf in
    let n = cut len i.cbw.data_length in
    let csw = record i.csw { data_residue = (i.csw.data_residue + word_mod - n) % word_mod } in
    if (i.csw.status == cmd_passed) && is_command_out i.state && ltb 0 n
    then record c {
      itf = record i { csw = csw; state = status_in };
      dev = (ep_send p i.in_ep_num (itf_field i.self buffer_field) (n % 65536) c.dev).1;
    }
    else c

-- `SCSI_ProcessCommand`
unfoldable pub process_command : Platform → MscCtx → MscCtx
process_command p c = send_response p (route_command p (get_or c.itf.cbw.cb 0 0) c)
