-- ===== src/Msc/Blocks.antt =====
-- The transfer of blocks: the commands READ(10) and WRITE(10) of Class/MSC/usbd_msc_scsi.c, and the end
-- of a transfer to the host in Class/MSC/usbd_msc.c.
use usbdevice.Base.{
  ℕ, ◌+◌, ◌-◌, ◌*◌, ◌/◌, ◌%◌, Bool, true, false, not, ◌∷◌, ltb, ◌==◌, if◌then◌else◌, overwrite,
}
use usbdevice.Device.{
  ReturnType, e_ok, itf_field, buffer_field, cbw_field, csw_field, Platform, Device,
}
use usbdevice.Endpoint.{ep_send, ep_receive, ep_set_stall}
use usbdevice.Msc.{
  MscState, command_out, data_out, data_in, status_in, stall, MscStatus, normal, cmd_passed,
  cmd_failed, msc_buffer_size, LuCall, lu_read, lu_write, Msc, MscCtx, current, be16, be32,
  word_mod,
}

abbrev pub is_ok : ReturnType → Bool
is_ok e_ok = true
is_ok _ = false

abbrev pub is_normal : MscStatus → Bool
is_normal normal = true
is_normal _ = false

abbrev pub on_msc : (Msc → Msc) → MscCtx → MscCtx
on_msc f c = record c { itf = f c.itf }

abbrev pub on_msc_dev : (Device → Device) → MscCtx → MscCtx
on_msc_dev f c = record c { dev = f c.dev }

-- The sense keys and the additional codes that the commands use.
abbrev pub not_ready : ℕ
not_ready = 2

abbrev pub hardware_error : ℕ
hardware_error = 4

abbrev pub illegal_request : ℕ
illegal_request = 5

-- `SCSI_PutSenseCode`
unfoldable pub put_sense_code : ℕ → ℕ → Msc → Msc
put_sense_code key asc i = record i {
  sense_key = key;
  sense_asc = asc;
  csw = record i.csw { status = cmd_failed };
}

-- The length of the next part of a transfer.
abbrev pub part_length : Msc → ℕ
part_length i = if ltb i.rem_length msc_buffer_size then i.rem_length else msc_buffer_size

-- The progress after a part of `len` bytes, at most what remains.
unfoldable pub move_on : ℕ → Msc → Msc
move_on len i = record i {
  address = (i.address + len) % word_mod;
  rem_length = i.rem_length - len;
  csw = record i.csw { data_residue = (i.csw.data_residue + word_mod - len) % word_mod };
}

abbrev pub read_call : Msc → LuCall
read_call i =
    lu_read i.cbw.lun (i.address / (current i).block_size)
      (part_length i / (current i).block_size % 65536)

-- The call of Read of the current unit, which fills the buffer.
unfoldable pub read_part : Msc → ReturnType × Msc
read_part i =
    let (r, bytes) = (current i).read (read_call i ∷ i.log) in
    (r, record i { log = read_call i ∷ i.log; buffer = overwrite bytes i.buffer })

-- `SCSI_ProcessRead`
unfoldable pub process_read : Platform → MscCtx → ReturnType × MscCtx
process_read p c =
    let len = part_length c.itf in
    let r = (read_part c.itf).0 in
    let i = (read_part c.itf).1 in
    let moved = move_on len i in
    let ended = record moved { state = if moved.rem_length == 0 then status_in else moved.state } in
    if is_ok r
    then (
      r,
      record c {
        itf = ended;
        dev = (ep_send p i.in_ep_num (itf_field i.self buffer_field) len c.dev).1;
      },
    )
    else (r, record c { itf = put_sense_code hardware_error 0x11 i })

unfoldable pub write_part : Msc → ReturnType × Msc
write_part i =
    let lu = current i in
    let n = part_length i / lu.block_size % 65536 in
    let call = lu_write i.cbw.lun i.buffer (i.address / lu.block_size) n in
    (lu.write (call ∷ i.log), record i { log = call ∷ i.log })

-- `SCSI_ProcessWrite`: the next part is received with the length of this one.
unfoldable pub process_write : Platform → MscCtx → ReturnType × MscCtx
process_write p c =
    let len = part_length c.itf in
    let r = (write_part c.itf).0 in
    let i = (write_part c.itf).1 in
    let moved = move_on len i in
    let received = (ep_receive p i.out_ep_num (itf_field i.self buffer_field) len c.dev).1 in
    if is_ok r
    then (r, record c { itf = moved; dev = if moved.rem_length == 0 then c.dev else received })
    else (r, record c { itf = put_sense_code hardware_error 0x03 i })

-- The block address and the number of blocks of a command.
abbrev pub block_addr : Msc → ℕ
block_addr i = be32 i.cbw.cb 2

abbrev pub transfer_len : Msc → ℕ
transfer_len i = be16 i.cbw.cb 7

-- The test of the range, in 32 bits.
abbrev pub is_past : Msc → Bool
is_past i = ltb (current i).block_count ((block_addr i + transfer_len i) % word_mod)

-- The start of a transfer.
unfoldable pub aim : Msc → Msc
aim i = record i {
  address = block_addr i * (current i).block_size % word_mod;
  rem_length = transfer_len i * (current i).block_size % word_mod;
}

-- `SCSI_Read10`: the length of the response, and the state.
unfoldable pub read10 : Platform → MscCtx → ℕ × MscCtx
read10 p c =
    let i = c.itf in
    let lu = current i in
    let started = (process_read p (on_msc (λ i. record (aim i) { state = data_in }) c)).1 in
    let v =
      if i.cbw.flags == 0
      then on_msc (put_sense_code illegal_request 0x20) c
      else if not lu.is_ready
      then on_msc (put_sense_code not_ready 0x3A) c
      else if is_past i
      then on_msc (put_sense_code illegal_request 0x21) c
      else if i.cbw.data_length == (aim i).rem_length
      then started
      else on_msc (λ i. put_sense_code illegal_request 0x20 (aim i)) c in
    (i.cbw.data_length, v)

-- `SCSI_Write10`
unfoldable pub write10 : Platform → MscCtx → ℕ × MscCtx
write10 p c =
    let i = c.itf in
    let lu = current i in
    let len = part_length (aim i) in
    let started = record c {
      itf = record (aim i) { state = data_out };
      dev = (ep_receive p i.out_ep_num (itf_field i.self buffer_field) len c.dev).1;
    } in
    if not (i.cbw.flags == 0)
    then (msc_buffer_size, on_msc (put_sense_code illegal_request 0x20) c)
    else if not lu.is_ready
    then (msc_buffer_size, on_msc (put_sense_code not_ready 0x3A) c)
    else if not lu.is_writable
    then (msc_buffer_size, on_msc (put_sense_code not_ready 0x27) c)
    else if is_past i
    then (msc_buffer_size, on_msc (put_sense_code illegal_request 0x21) c)
    else if i.cbw.data_length == (aim i).rem_length
    then (len, started)
    else (msc_buffer_size, on_msc (λ i. put_sense_code illegal_request 0x20 (aim i)) c)

-- `msc_receiveCBW` and `msc_sendCSW`
unfoldable pub receive_cbw : Platform → MscCtx → MscCtx
receive_cbw p c = record c {
  itf = record c.itf { state = command_out };
  dev = (ep_receive p c.itf.out_ep_num (itf_field c.itf.self cbw_field) 31 c.dev).1;
}

unfoldable pub send_csw : Platform → MscCtx → MscCtx
send_csw p c =
    receive_cbw p
      (on_msc_dev (λ d. (ep_send p c.itf.in_ep_num (itf_field c.itf.self csw_field) 13 d).1) c)

abbrev stall_failed : Platform → MscCtx → MscCtx
stall_failed p c = if c.itf.csw.status == cmd_passed then c else record c {
  itf = record c.itf { state = stall };
  dev = ep_set_stall p c.itf.in_ep_num c.dev;
}

abbrev pub in_data_at : Platform → MscState → MscCtx → MscCtx
in_data_at p data_in c = stall_failed p (process_read p c).1
in_data_at p status_in c = if is_normal c.itf.status then send_csw p c else c
in_data_at p stall c = if is_normal c.itf.status then send_csw p c else c
in_data_at p _ c = c

-- `msc_inData`
unfoldable pub in_data : Platform → MscCtx → MscCtx
in_data p c = in_data_at p c.itf.state c
