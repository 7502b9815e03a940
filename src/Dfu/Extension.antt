-- ===== src/Dfu/Extension.antt =====
-- The build of Class/DFU/usbd_dfu.c with USBD_DFU_ST_EXTENSION: commands in the block 0 set the address
-- pointer and erase, and the blocks from 2 on lie behind the pointer.
use usbdevice.Base.{
  ℕ, ◌+◌, ◌-◌, ◌*◌, ◌%◌, ◌^◌, Bool, ◌&&◌, ◌||◌, Option, none, some, List, [], ◌∷◌, ltb, ◌==◌,
  if◌then◌else◌, take, get_or, overwrite,
}
use usbdevice.Device.{ReturnType, e_ok, e_invalid, type_class, ctrl_data_buffer, rom, Platform}
use usbdevice.Control.{ctrl_send_data, ctrl_receive_data}
use usbdevice.Dfu.{
  State, idle, dnload_sync, dnload_busy, manifest, manifest_sync, upload_idle, error_stalledpkt,
  req_dnload, req_upload, req_getstatus, AppCall, app_erase, app_write, app_read, Dfu, Ctx, u32_mod,
  firmware_end, on_itf,
}
use usbdevice.Dfu.Requests.{is_some, on_dev_result, upload_end}
use usbdevice.Dfu.Setup.{is_valid, call_request, refuse, check}
use usbdevice.Dfu.Stages.{ask, do_manifest, settle}

-- `DFUSE_CMD_...`
abbrev cmd_getcommands : ℕ
cmd_getcommands = 0x00

abbrev pub cmd_setaddresspointer : ℕ
cmd_setaddresspointer = 0x21

abbrev cmd_erase : ℕ
cmd_erase = 0x41

abbrev cmd_read_unprotect : ℕ
cmd_read_unprotect = 0x92

-- `dfuse_cmds`
abbrev pub dfuse_cmds : List ℕ
dfuse_cmds = cmd_getcommands ∷ cmd_setaddresspointer ∷ cmd_erase ∷ []

-- `DFUSE_GETADDRESS`, for a block from 2 on.
abbrev pub block_address : Platform → Dfu → ℕ
block_address p i = (i.address + (i.block_num - 2) * p.ep0_buffer_size) % u32_mod

-- `dfuseCmd->Address`: four bytes, the low one first.
abbrev pub command_address : List ℕ → ℕ
command_address buf =
    get_or buf 1 0 + 256 * get_or buf 2 0 + 65536 * get_or buf 3 0 + 2 ^ 24 * get_or buf 4 0

-- `dfu_download`: the range is tested at the address pointer, whatever the number of the block.
unfoldable pub st_download_block : Platform → Ctx → ReturnType × Ctx
st_download_block p c =
    let s = c.dev.setup in
    let i = c.itf in
    let accepted = record i { block_num = s.value; block_length = s.length; state = dnload_sync } in
    if ltb ((i.address + s.length) % u32_mod) (firmware_end i.app)
    then on_dev_result (ctrl_receive_data p ctrl_data_buffer s.length) (record c { itf = accepted })
    else (e_invalid, c)

unfoldable pub st_download : Platform → Ctx → ReturnType × Ctx
st_download p c =
    let n = c.dev.setup.length in
    if ltb p.ep0_buffer_size n
    then (e_invalid, c)
    else if ltb 0 n
    then (if is_some c.itf.app.erase && is_some c.itf.app.write
        then st_download_block p c
        else (e_invalid, c))
    else (e_ok, on_itf (λ i. record i { block_length = 1; state = manifest_sync }) c)

-- `dfu_upload`: the commands in the block 0, the memory from the block 2 on.
unfoldable pub st_read : Platform → (List AppCall → List ℕ) → Ctx → ReturnType × Ctx
st_read p f c =
    let n = c.dev.setup.length in
    let at = block_address p c.itf in
    let log = app_read at n ∷ c.itf.log in
    if ltb ((at + n) % u32_mod) (firmware_end c.itf.app)
    then on_dev_result (ctrl_send_data p ctrl_data_buffer n) (record c {
      itf = record c.itf { state = upload_idle; log = log };
      dev = record c.dev { ctrl_data = overwrite (take n (f log)) c.dev.ctrl_data };
    })
    else (e_invalid, c)

unfoldable pub st_upload_block : Platform → (List AppCall → List ℕ) → Ctx → ReturnType × Ctx
st_upload_block p f c =
    let s = c.dev.setup in
    let v = on_itf (λ i. record i { block_num = s.value }) c in
    let told = on_itf (λ i. record i { state = if ltb 3 s.length then idle else upload_idle }) v in
    if s.value == 0
    then on_dev_result (ctrl_send_data p (rom dfuse_cmds) 3) told
    else if ltb 1 s.value
    then st_read p f v
    else (e_invalid, v)

abbrev st_upload_with : Platform → Option (List AppCall → List ℕ) → Ctx → ReturnType × Ctx
st_upload_with p none c = upload_end c
st_upload_with p (some f) c = st_upload_block p f c

unfoldable pub st_upload : Platform → Ctx → ReturnType × Ctx
st_upload p c =
    let n = c.dev.setup.length in
    if ltb p.ep0_buffer_size n
    then (e_invalid, c)
    else if ltb 0 n
    then st_upload_with p c.itf.app.read c
    else upload_end c

-- The case USB_REQ_TYPE_CLASS of `dfu_setupStage`: the other requests are those of the other build.
unfoldable pub st_class_request : Platform → Bool → Ctx → ReturnType × Ctx
st_class_request p tolerant c =
    let q = c.dev.setup.request in
    let called =
      if q == req_dnload
      then st_download p c
      else if q == req_upload
      then st_upload p c
      else call_request p tolerant q c in
    if is_valid q c.itf.state then check called else refuse c

-- The special commands of `dfu_dataStage`.
unfoldable pub run_command : List ℕ → Dfu → Dfu
run_command buf i =
    let cmd = get_or buf 0 0 in
    let pointed = record i { address = command_address buf } in
    if cmd == cmd_setaddresspointer
    then (if i.block_length == 5 then pointed else i)
    else if cmd == cmd_erase
    then (if i.block_length == 5
        then ask (λ a. a.erase) (app_erase (command_address buf)) pointed
        else i)
    else if (cmd == cmd_read_unprotect) || (cmd == cmd_getcommands)
    then i
    else record i { status = error_stalledpkt }

-- The case DFU_STATE_DNLOAD_BUSY of `dfu_dataStage`.
unfoldable pub st_do_download : Platform → List ℕ → Dfu → Dfu
st_do_download p buf i =
    let write = app_write (block_address p i) (take i.block_length buf) i.block_length in
    let done =
      if ltb 1 i.block_num
      then ask (λ a. a.write) write i
      else if i.block_num == 0
      then run_command buf i
      else i in
    record done { state = dnload_sync; block_length = 0; poll_timeout = 0 }

-- `dfu_dataStage`
unfoldable pub st_work : Platform → Bool → (Ctx → Ctx) → State → Ctx → Ctx
st_work p tolerant shutdown dnload_busy c = on_itf (st_do_download p c.dev.ctrl_data) c
st_work p tolerant shutdown manifest c = do_manifest tolerant shutdown c
st_work p tolerant shutdown _ c = c

unfoldable pub st_data_stage : Platform → Bool → (Ctx → Ctx) → Ctx → Ctx
st_data_stage p tolerant shutdown c =
    let s = c.dev.setup in
    on_itf settle (
      if (s.type == type_class) && (s.request == req_getstatus)
      then st_work p tolerant shutdown c.itf.state c
      else c)
