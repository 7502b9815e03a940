-- ===== src/Msc/Transport.antt =====
-- The bulk-only transport: Class/MSC/usbd_msc.c, msc_setupStage and msc_outData.
use usbdevice.Base.{ℕ, not, ◌&&◌, Bool, ltb, leb, ◌==◌, if◌then◌else◌, ◌∷◌, [], overwrite}
use usbdevice.Device.{
  ReturnType, e_ok, e_invalid, type_class, ctrl_data_buffer, Platform, EpRef, get_ep,
}
use usbdevice.Endpoint.{ep_set_stall}
use usbdevice.Control.{ctrl_send_data}
use usbdevice.Msc.{
  MscState, command_out, data_out, stall, MscStatus, normal, recovery, failing, cmd_passed, Msc,
  MscCtx,
}
use usbdevice.Msc.Blocks.{
  put_sense_code, illegal_request, on_msc, process_write, receive_cbw, send_csw,
}
use usbdevice.Msc.Commands.{process_command}

-- `cbw_sign.dw`, the bytes `USBC` read as a word.
abbrev pub cbw_sign : ℕ
cbw_sign = 0x43425355

-- The initial setup of the status wrapper for a command.
unfoldable pub open_status : Msc → Msc
open_status i = record i {
  csw = record i.csw { tag = i.cbw.tag; data_residue = i.cbw.data_length; status = cmd_passed };
}

-- The test of a received command wrapper: `len` is the length of the transfer.
unfoldable pub is_valid_cbw : ℕ → Msc → Bool
is_valid_cbw len i =
    (len == 31)
    && (i.cbw.signature == cbw_sign)
    && leb i.cbw.lun i.max_lun
    && ltb 0 i.cbw.cb_length
    && leb i.cbw.cb_length 16

-- The end of a command: its status is sent, or the transfer is terminated by a stall.
unfoldable pub close_command : Platform → MscCtx → MscCtx
close_command p c =
    let i = c.itf in
    let ep = if i.cbw.flags == 0 then i.out_ep_num else i.in_ep_num in
    let stalled = record c { itf = record i { state = stall }; dev = ep_set_stall p ep c.dev } in
    if i.cbw.data_length == 0
    then send_csw p c
    else if i.csw.status == cmd_passed
    then c
    else stalled

-- A wrapper that is not valid stalls both endpoints until recovery.
unfoldable pub reject_cbw : Platform → MscCtx → MscCtx
reject_cbw p c = record c {
  itf = record (put_sense_code illegal_request 0x20 c.itf) { state = stall; status = failing };
  dev = ep_set_stall p c.itf.in_ep_num (ep_set_stall p c.itf.out_ep_num c.dev);
}

-- The case MSC_STATE_COMMAND_OUT of `msc_outData`.
unfoldable pub take_command : Platform → ℕ → MscCtx → MscCtx
take_command p len c =
    let opened = on_msc open_status c in
    if is_valid_cbw len c.itf
    then close_command p (process_command p opened)
    else reject_cbw p opened

-- The case MSC_STATE_DATA_OUT.
unfoldable pub take_data : Platform → MscCtx → MscCtx
take_data p c =
    let v = (process_write p c).1 in
    let stalled = record v {
      itf = record v.itf { state = stall };
      dev = ep_set_stall p v.itf.out_ep_num v.dev;
    } in
    if not (v.itf.csw.status == cmd_passed)
    then stalled
    else if v.itf.csw.data_residue == 0
    then send_csw p v
    else v

-- The other cases: the endpoint is no longer stalled.
abbrev pub unstalled : Platform → MscStatus → MscCtx → MscCtx
unstalled p normal c = send_csw p c
unstalled p recovery c = on_msc (λ i. record i { status = normal }) (receive_cbw p c)
unstalled p failing c = c

abbrev pub out_data_at : Platform → MscState → ℕ → MscCtx → MscCtx
out_data_at p command_out len c = take_command p len c
out_data_at p data_out len c = take_data p c
out_data_at p _ len c = unstalled p c.itf.status c

-- `msc_outData`
unfoldable pub out_data : Platform → EpRef → MscCtx → MscCtx
out_data p ep c = out_data_at p c.itf.state (get_ep ep c.dev).transfer_length c

-- `msc_setupStage`
unfoldable pub setup_stage : Platform → MscCtx → ReturnType × MscCtx
setup_stage p c =
    let s = c.dev.setup in
    let d = record c.dev { ctrl_data = overwrite (c.itf.max_lun ∷ []) c.dev.ctrl_data } in
    let (r, sent) = ctrl_send_data p ctrl_data_buffer 1 d in
    if not (s.type == type_class)
    then (e_invalid, c)
    else if s.request == 0xFE
    then (r, record c { dev = sent })
    else if s.request == 0xFF
    then (e_ok, on_msc (λ i. record i { status = recovery }) c)
    else (e_invalid, c)
