-- ===== src/Dfu/Requests.antt =====
-- The class requests, Class/DFU/usbd_dfu.c from dfu_detach to dfu_abort.
use usbdevice.Base.{
  ℕ, ◌+◌, ◌-◌, ◌%◌, Bool, true, false, ◌&&◌, ◌||◌, Option, none, some, List, ◌∷◌, ltb, ◌==◌,
  if◌then◌else◌, take, overwrite,
}
use usbdevice.Device.{
  ReturnType, e_ok, e_invalid, ctrl_data_buffer, itf_field, dev_status_field, dev_state_field,
  Platform, Device,
}
use usbdevice.Control.{ctrl_send_data, ctrl_receive_data}
use usbdevice.Dfu.{
  app_detach, idle, dnload_sync, dnload_idle, manifest_sync, upload_idle, succ_state, is_idle,
  is_dnload_sync, is_manifest_sync, error_none, AppCall, reboot, app_read, Dfu, Ctx, u32_mod,
  mode_tag, mode_tag_inv, will_detach, firmware_end, on_itf,
}

abbrev pub on_dev_result : (Device → ReturnType × Device) → Ctx → ReturnType × Ctx
on_dev_result f c = let (r, d) = f c.dev in (r, record c { dev = d })

abbrev pub is_some {ℓ} : {A : Type ℓ} → Option A → Bool
is_some none = false
is_some (some a) = true

-- `dfu_detach`
unfoldable pub detach : Bool → Ctx → ReturnType × Ctx
detach tolerant c =
    let i = record c.itf { state = app_detach } in
    let tagged = record i {
      tag0 = mode_tag;
      tag1 = mode_tag_inv;
      log = if i.has_reboot then reboot ∷ i.log else i.log;
    } in
    (e_ok, record c { itf = if will_detach tolerant then tagged else i })

-- Both transfers start over at the first block of the firmware when the state is dfuIDLE.
unfoldable pub start_block : Dfu → Dfu
start_block i =
    if is_idle i.state then record i { address = i.app.firmware_address; block_num = 0xFFFF } else i

abbrev pub next_block : Dfu → ℕ
next_block i = (i.block_num + 1) % 65536

-- The branch of `dfu_download` for a block.
unfoldable pub download_block : Platform → Ctx → ReturnType × Ctx
download_block p c =
    let s = c.dev.setup in
    let i = start_block c.itf in
    let accepted = record i { block_num = s.value; block_length = s.length; state = dnload_sync } in
    if (s.value == next_block i) && ltb ((i.address + s.length) % u32_mod) (firmware_end i.app)
    then on_dev_result (ctrl_receive_data p ctrl_data_buffer s.length) (record c { itf = accepted })
    else (e_invalid, record c { itf = i })

-- `dfu_download`
unfoldable pub download : Platform → Ctx → ReturnType × Ctx
download p c =
    let n = c.dev.setup.length in
    if ltb p.ep0_buffer_size n
    then (e_invalid, c)
    else if ltb 0 n
    then (if is_some c.itf.app.erase && is_some c.itf.app.write
        then download_block p c
        else (e_invalid, c))
    else (e_ok, on_itf (λ i. record i { block_length = 1; state = manifest_sync }) c)

-- The length of the next block of an upload, and whether it is the last, shorter one.
abbrev pub progress : Dfu → ℕ
progress i = (i.address + u32_mod - i.app.firmware_address) % u32_mod

abbrev pub is_short : Dfu → ℕ → Bool
is_short i n = ltb i.app.total_size ((progress i + n) % u32_mod)

abbrev pub upload_length : Dfu → ℕ → ℕ
upload_length i n =
    if is_short i n then (i.app.total_size + u32_mod - progress i) % u32_mod % 65536 else n

-- The branch of `dfu_upload` for a block: `f` is the function Read of the application.
unfoldable pub upload_block : Platform → (List AppCall → List ℕ) → Ctx → ReturnType × Ctx
upload_block p f c =
    let s = c.dev.setup in
    let i = start_block c.itf in
    let len = upload_length i s.length in
    let log = app_read i.address len ∷ i.log in
    let sent = record i {
      state = if is_short i s.length then idle else upload_idle;
      address = (i.address + len) % u32_mod;
      block_num = s.value;
      log = log;
    } in
    if s.value == next_block i
    then on_dev_result (ctrl_send_data p ctrl_data_buffer len) (record c {
      itf = sent;
      dev = record c.dev { ctrl_data = overwrite (take len (f log)) c.dev.ctrl_data };
    })
    else (e_invalid, record c { itf = i })

-- The end of an upload by the host: there is no data stage, or the application cannot read.
unfoldable pub upload_end : Ctx → ReturnType × Ctx
upload_end c = (e_ok, on_itf (λ i. record i { state = idle }) c)

abbrev pub upload_with : Platform → Option (List AppCall → List ℕ) → Ctx → ReturnType × Ctx
upload_with p none c = upload_end c
upload_with p (some f) c = upload_block p f c

-- `dfu_upload`
unfoldable pub upload : Platform → Ctx → ReturnType × Ctx
upload p c =
    let n = c.dev.setup.length in
    if ltb p.ep0_buffer_size n
    then (e_invalid, c)
    else if ltb 0 n
    then upload_with p c.itf.app.read c
    else upload_end c

abbrev poll : Option (ℕ → ℕ → ℕ) → Dfu → ℕ
poll none i = i.poll_timeout
poll (some f) i = f i.address i.block_length

-- The update of the state in `dfu_getStatus`.
unfoldable pub advance : Dfu → Dfu
advance i =
    if is_dnload_sync i.state || is_manifest_sync i.state
    then (if ltb 0 i.block_length
        then record i { poll_timeout = poll i.app.get_timeout i; state = succ_state i.state }
        else if is_dnload_sync i.state
        then record i { state = dnload_idle }
        else record i { state = idle })
    else i

-- `dfu_getStatus`: the result of sending the status is not looked at.
unfoldable pub get_status : Platform → Ctx → ReturnType × Ctx
get_status p c =
    let v = on_itf advance c in
    (e_ok, (on_dev_result (ctrl_send_data p (itf_field c.itf.self dev_status_field) 6) v).1)

-- `dfu_clearStatus`
unfoldable pub clear_status : Ctx → ReturnType × Ctx
clear_status c =
    (e_ok, on_itf (λ i. record i { state = idle; status = error_none; poll_timeout = 0 }) c)

-- `dfu_getState`
unfoldable pub get_state : Platform → Ctx → ReturnType × Ctx
get_state p c = on_dev_result (ctrl_send_data p (itf_field c.itf.self dev_state_field) 1) c

-- `dfu_abort`
unfoldable pub abort : Ctx → ReturnType × Ctx
abort c = (
  e_ok,
  on_itf
      (λ i. record i {
        state = idle;
        status = error_none;
        poll_timeout = 0;
        block_num = 0;
        block_length = 0;
      })
      c,
)
