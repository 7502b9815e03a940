-- ===== src/Dfu/Setup.antt =====
-- The setup stage of a request to the interface: Class/DFU/usbd_dfu.c, the table of valid states, the
-- descriptors and dfu_setupStage, rodfu_setupStage.
use usbdevice.Base.{
  ℕ, ◌+◌, ◌-◌, ◌/◌, ◌%◌, ◌^◌, Bool, not, ◌&&◌, List, [], ◌∷◌, ◌++◌, ltb, ◌==◌, if◌then◌else◌,
  get_or, take, drop, overwrite, bit_and, length,
}
use usbdevice.Device.{
  ReturnType, e_ok, e_invalid, type_standard, type_class, req_get_descriptor, ctrl_data_buffer, rom,
  itf_field, dev_status_field, Platform,
}
use usbdevice.Control.{ctrl_send_data}
use usbdevice.Descriptor.{le16}
use usbdevice.Dfu.{
  State, app_idle, app_detach, idle, dnload_sync, dnload_idle, manifest_sync, upload_idle, error,
  code, in_dfu_mode, error_stalledpkt, req_detach, req_dnload, req_upload, req_getstatus,
  req_clrstatus, req_getstate, req_abort, Dfu, Ctx, attributes, on_itf,
}
use usbdevice.Dfu.Requests.{
  is_some, on_dev_result, detach, download, upload, get_status, clear_status, get_state, abort,
}

-- The bit of a state, `1 << s`.
abbrev pub mask : State → ℕ
mask s = 2 ^ code s

-- `dfu_validStates`
abbrev pub valid_states : List ℕ
valid_states =
    mask app_idle
    ∷ (mask idle + mask dnload_idle)
    ∷ (mask idle + mask upload_idle)
    ∷ (mask app_idle
        + mask app_detach
        + mask idle
        + mask dnload_sync
        + mask dnload_idle
        + mask manifest_sync
        + mask upload_idle
        + mask error)
    ∷ mask error
    ∷ (mask app_idle
        + mask app_detach
        + mask idle
        + mask dnload_sync
        + mask dnload_idle
        + mask manifest_sync
        + mask upload_idle
        + mask error)
    ∷ (mask idle + mask dnload_sync + mask dnload_idle + mask manifest_sync + mask upload_idle)
    ∷ []

-- The two tests of `dfu_setupStage` before it calls a function: the request has one, and its mask
-- holds the bit of the state.
unfoldable pub is_valid : ℕ → State → Bool
is_valid q s =
    ltb q (length valid_states) && not (bit_and (get_or valid_states q 0) (mask s % 65536) == 0)

-- The functional descriptor, with these attributes and this timeout.
abbrev pub func_desc : Platform → ℕ → ℕ → List ℕ
func_desc p attrs timeout =
    9 ∷ 0x21 ∷ attrs ∷ (le16 timeout ++ (le16 p.ep0_buffer_size ++ le16 0x0101))

-- `rodfu_getDesc` and `dfu_getDesc`
unfoldable pub ro_get_desc : Platform → Bool → ℕ → Dfu → List ℕ
ro_get_desc p tolerant if_num i =
    9
    ∷ 4
    ∷ if_num
    ∷ 0
    ∷ 0
    ∷ 0xFE
    ∷ 1
    ∷ 1
    ∷ ((1 + if_num) % 256)
    ∷ func_desc p (attributes tolerant) i.detach_timeout

unfoldable pub get_desc : Platform → Bool → ℕ → Dfu → List ℕ
get_desc p tolerant if_num i =
    let attrs =
      attributes tolerant
      + (if is_some i.app.erase && is_some i.app.write then 1 else 0)
      + (if is_some i.app.read then 2 else 0) in
    9
    ∷ 4
    ∷ if_num
    ∷ 0
    ∷ 0
    ∷ 0xFE
    ∷ 1
    ∷ (if in_dfu_mode i.state then 2 else 1)
    ∷ ((1 + if_num) % 256)
    ∷ func_desc p attrs i.detach_timeout

-- The functional descriptor on its own: the whole descriptor is written to the control buffer, and its
-- last 9 bytes are copied to the start.
unfoldable pub send_func_desc : Platform → Bool → Ctx → ReturnType × Ctx
send_func_desc p tolerant c =
    let bytes = get_desc p tolerant 0 c.itf in
    let whole = overwrite bytes c.dev.ctrl_data in
    let moved = overwrite (take 9 (drop (length bytes - 9) whole)) whole in
    on_dev_result (ctrl_send_data p ctrl_data_buffer 9)
      (record c { dev = record c.dev { ctrl_data = moved } })

-- `dfu_reqFns`
unfoldable pub call_request : Platform → Bool → ℕ → Ctx → ReturnType × Ctx
call_request p tolerant q c =
    if q == req_detach
    then detach tolerant c
    else if q == req_dnload
    then download p c
    else if q == req_upload
    then upload p c
    else if q == req_getstatus
    then get_status p c
    else if q == req_clrstatus
    then clear_status c
    else if q == req_getstate
    then get_state p c
    else if q == req_abort
    then abort c
    else (e_invalid, c)

-- A request that is not valid, or that its function has refused.
unfoldable pub refuse : Ctx → ReturnType × Ctx
refuse c = (
  e_invalid,
  on_itf
      (λ i.
        if in_dfu_mode i.state
        then record i { state = error; status = error_stalledpkt }
        else record i { state = app_idle })
      c,
)

abbrev pub check : ReturnType × Ctx → ReturnType × Ctx
check (e_ok, c) = (e_ok, c)
check (_, c) = refuse c

-- The case USB_REQ_TYPE_CLASS of `dfu_setupStage`.
unfoldable pub class_request : Platform → Bool → Ctx → ReturnType × Ctx
class_request p tolerant c =
    let q = c.dev.setup.request in
    if is_valid q c.itf.state then check (call_request p tolerant q c) else refuse c

-- `dfu_setupStage`
unfoldable pub setup_stage : Platform → Bool → Ctx → ReturnType × Ctx
setup_stage p tolerant c =
    let s = c.dev.setup in
    if s.type == type_standard
    then (if (s.request == req_get_descriptor) && (s.value / 256 == 0x21)
        then send_func_desc p tolerant c
        else (e_invalid, c))
    else if s.type == type_class
    then class_request p tolerant c
    else (e_invalid, c)

-- `rodfu_setupStage`
unfoldable pub ro_setup_stage : Platform → Bool → Ctx → ReturnType × Ctx
ro_setup_stage p tolerant c =
    let s = c.dev.setup in
    if s.type == type_standard
    then (if (s.request == req_get_descriptor) && (s.value / 256 == 0x21)
        then on_dev_result (ctrl_send_data p (rom (func_desc p (attributes tolerant) 100)) 9) c
        else (e_invalid, c))
    else if s.type == type_class
    then (if s.request == req_detach
        then detach tolerant c
        else if s.request == req_getstatus
        then on_dev_result (ctrl_send_data p (itf_field c.itf.self dev_status_field) 6) c
        else if s.request == req_getstate
        then get_state p c
        else (e_invalid, c))
    else (e_invalid, c)
