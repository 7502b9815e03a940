-- ===== src/Hid.antt =====
-- The human interface class: the types of Include/usbd_hid.h, and the callbacks and exported functions
-- of Class/HID/usbd_hid.c, in the build with USBD_HID_ALTSETTINGS 0.
pub mod Alternates
pub mod Mount
pub mod Reports
pub mod Context
use usbdevice.Base.{
  ℕ, ◌+◌, ◌-◌, ◌*◌, ◌/◌, ◌%◌, ◌^◌, not, ◌&&◌, ◌||◌, Bool, true, false, Option, none, some, List, [],
  ◌∷◌, ◌++◌, ltb, ◌==◌, if◌then◌else◌, overwrite, take,
}
use usbdevice.Device.{
  ReturnType, e_ok, e_error, type_standard, type_class, type_interrupt, req_get_descriptor, is_high,
  memory, ctrl_data_buffer, rom, Buffer, Platform, Device, EpRef, get_ep,
}
use usbdevice.Endpoint.{ep_open, ep_close, ep_send, ep_receive}
use usbdevice.Control.{ctrl_send_data, ctrl_receive_data}
use usbdevice.Descriptor.{le16}
use usbdevice.Bulk.{start_of}

-- `USBD_HID_ReportConfigType`
pub record ReportConfig : Type 0 where
  pub report_desc : List ℕ
  pub desc_length : ℕ
  pub max_id : ℕ
  pub input_interval_ms : ℕ
  pub input_max_size : ℕ
  pub feature_max_size : ℕ
  pub output_interval_ms : ℕ
  pub output_max_size : ℕ

-- `USBD_HID_IfHandleType` and its `Config`, with its reference.
pub record Hid : Type 0 where
  pub self : ℕ
  pub in_ep_num : ℕ
  pub out_ep_num : ℕ
  pub idle_rate : ℕ
  pub request : ℕ

-- `ram` is the memory that the pointers of the application lead to.
pub record HidCtx : Type 0 where
  pub itf : Hid
  pub dev : Device
  pub ram : ℕ → ℕ

-- The build options USBD_HID_OUT_SUPPORT and USBD_HID_REPORT_STRINGS.
pub record HidOptions : Type 0 where
  pub out_support : Bool
  pub report_strings : Bool

-- `USBD_HID_AppType`: the functions of the application, `none` for NULL. They may call the stack.
pub record HidApp : Type 0 where
  pub name : List ℕ
  pub report : ReportConfig
  pub app_init : Option (HidCtx → HidCtx)
  pub app_deinit : Option (HidCtx → HidCtx)
  pub set_report : Option (ℕ → Buffer → ℕ → HidCtx → HidCtx)
  pub get_report : Option (ℕ → ℕ → HidCtx → HidCtx)
  pub set_idle : Option (ℕ → ℕ → HidCtx → HidCtx)
  pub in_report_sent : Option (ℕ → HidCtx → HidCtx)
  pub app_string : Option (ℕ → Option (List ℕ))

abbrev pub on_hid : (Hid → Hid) → HidCtx → HidCtx
on_hid f c = record c { itf = f c.itf }

abbrev pub on_hid_dev : (Device → Device) → HidCtx → HidCtx
on_hid_dev f c = record c { dev = f c.dev }

abbrev pub on_hid_result : (Device → ReturnType × Device) → HidCtx → ReturnType × HidCtx
on_hid_result f c = let (r, d) = f c.dev in (r, record c { dev = d })

abbrev pub set_request : ℕ → HidCtx → HidCtx
set_request t c = on_hid (λ i. record i { request = t }) c

-- `USBD_SAFE_CALLBACK`
abbrev pub tell : Option (HidCtx → HidCtx) → HidCtx → HidCtx
tell none c = c
tell (some f) c = f c

abbrev pub tell_id : Option (ℕ → HidCtx → HidCtx) → ℕ → HidCtx → HidCtx
tell_id none id c = c
tell_id (some f) id c = f id c

abbrev pub tell_two : Option (ℕ → ℕ → HidCtx → HidCtx) → ℕ → ℕ → HidCtx → HidCtx
tell_two none a b c = c
tell_two (some f) a b c = f a b c

abbrev pub tell_report :
    Option (ℕ → Buffer → ℕ → HidCtx → HidCtx) → ℕ → Buffer → ℕ → HidCtx → HidCtx
tell_report none type at len c = c
tell_report (some f) type at len c = f type at len c

-- `USB_EP_INTR_HS_MPS` and `USB_EP_INTR_FS_MPS`, the limit at the speed of the device, and a size under
-- a limit.
abbrev pub mps_limit : Platform → Device → ℕ
mps_limit p d = if p.hs_support && is_high d.speed then 1024 else 64

abbrev pub limit_to : ℕ → ℕ → ℕ
limit_to limit n = if ltb limit n then limit else n

-- `HID_REPORT_OUTPUT` and `HID_IDLE_RATE_INDEFINITE`
abbrev pub report_output : ℕ
report_output = 2

abbrev pub idle_rate_indefinite : ℕ
idle_rate_indefinite = 0xFFFF

-- `hid_desc.HIDCD` with this length of the report descriptor.
abbrev pub hid_class_desc : ℕ → List ℕ
hid_class_desc len = 9 ∷ 0x21 ∷ 0x11 ∷ 0x01 ∷ 0 ∷ 1 ∷ 0x22 ∷ le16 len

module _ (p : Platform) (o : HidOptions) (app : HidApp) where
  -- The OUT endpoint is optional.
  abbrev pub has_out : Hid → Bool
  has_out i = o.out_support && not (i.out_ep_num == 0)

  -- `hid_init`
  unfoldable pub init : HidCtx → HidCtx
  init c =
      let i = c.itf in
      let limit = mps_limit p c.dev in
      let in_open =
        ep_open p i.in_ep_num type_interrupt (limit_to limit app.report.input_max_size) c.dev in
      let all =
        if has_out i
        then ep_open p i.out_ep_num type_interrupt (limit_to limit app.report.output_max_size)
            in_open
        else in_open in
      tell app.app_init (record c {
        itf = record i { request = 0; idle_rate = app.report.input_interval_ms / 4 };
        dev = all;
      })

  -- `hid_deinit`
  unfoldable pub deinit : HidCtx → HidCtx
  deinit c =
      let in_closed = ep_close p c.itf.in_ep_num c.dev in
      let all = if has_out c.itf then ep_close p c.itf.out_ep_num in_closed else in_closed in
      tell app.app_deinit (record c { dev = all })

  abbrev report_id : HidCtx → ℕ
  report_id c = c.dev.setup.value % 256

  -- `Setup.Value >> 8`
  abbrev value_high : HidCtx → ℕ
  value_high c = c.dev.setup.value / 256

  -- The cases of `hid_setupStage`.
  unfoldable pub get_hid_descriptor : HidCtx → ReturnType × HidCtx
  get_hid_descriptor c =
      if value_high c == 0x21
      then on_hid_result (ctrl_send_data p (rom (hid_class_desc 0)) 9) c
      else if value_high c == 0x22
      then on_hid_result (ctrl_send_data p (rom app.report.report_desc) app.report.desc_length) c
      else (e_error, c)

  unfoldable pub get_report_request : HidCtx → ReturnType × HidCtx
  get_report_request c =
      let told =
        tell_two app.get_report (value_high c) (report_id c) (set_request (value_high c) c) in
      ((if told.itf.request == 0 then e_ok else e_error), set_request 0 told)

  unfoldable pub set_report_request : HidCtx → ReturnType × HidCtx
  set_report_request c =
      let max_len =
        if value_high c == report_output
        then app.report.output_max_size
        else app.report.feature_max_size in
      on_hid_result (ctrl_receive_data p ctrl_data_buffer max_len) c

  unfoldable pub get_idle_request : HidCtx → ReturnType × HidCtx
  get_idle_request c =
      let store =
        λ (d : Device). record d { ctrl_data = overwrite (c.itf.idle_rate ∷ []) d.ctrl_data } in
      on_hid_result (ctrl_send_data p ctrl_data_buffer 1) (on_hid_dev store c)

  unfoldable pub set_idle_request : HidCtx → ReturnType × HidCtx
  set_idle_request c =
      let rate = value_high c in
      let saved = if report_id c == 0 then on_hid (λ i. record i { idle_rate = rate }) c else c in
      let rate_ms = if ltb 0 rate then 4 * saved.itf.idle_rate else idle_rate_indefinite in
      (e_ok, tell_two app.set_idle rate_ms (report_id c) saved)

  -- `hid_setupStage`
  unfoldable pub setup_stage : HidCtx → ReturnType × HidCtx
  setup_stage c =
      let t = c.dev.setup.type in
      let q = c.dev.setup.request in
      if t == type_standard
      then (if q == req_get_descriptor then get_hid_descriptor c else (e_error, c))
      else if not (t == type_class)
      then (e_error, c)
      else if q == 0x01
      then get_report_request c
      else if q == 0x09
      then set_report_request c
      else if q == 0x02
      then get_idle_request c
      else if q == 0x0A
      then set_idle_request c
      else (e_error, c)

  -- `hid_dataStage`
  unfoldable pub data_stage : HidCtx → HidCtx
  data_stage c =
      let type = value_high c in
      if c.dev.setup.request == 0x09
      then set_request 0
          (tell_report app.set_report type ctrl_data_buffer c.dev.setup.length (set_request type c))
      else c

  -- `hid_inData`
  unfoldable pub in_data : EpRef → HidCtx → HidCtx
  in_data ep c =
      let e = get_ep ep c.dev in
      tell_id app.in_report_sent (c.ram (start_of e.transfer_data e.transfer_length)) c

  -- `hid_outData`, which the class has with USBD_HID_OUT_SUPPORT.
  unfoldable pub out_data : EpRef → HidCtx → HidCtx
  out_data ep c =
      let e = get_ep ep c.dev in
      let start = memory (start_of e.transfer_data e.transfer_length) in
      if o.out_support
      then tell_report app.set_report report_output start e.transfer_length c
      else c

  -- `hid_getString`
  unfoldable pub get_string : ℕ → Option (List ℕ)
  get_string int_num =
      if o.report_strings && not (int_num == 0)
      then (elim app.app_string [ none ↦ none | some f ↦ f int_num ])
      else some app.name

-- `USBD_HID_ReportIn`: `at` is the address of the report.
unfoldable pub report_in : Platform → ℕ → ℕ → HidCtx → ReturnType × HidCtx
report_in p at len c =
    let id = c.dev.setup.value % 256 in
    let (r, sent) = on_hid_result (ctrl_send_data p (memory at) len) c in
    if not (c.itf.request == 0) && ((id == 0) || (id == c.ram at))
    then (r, set_request 0 sent)
    else on_hid_result (ep_send p c.itf.in_ep_num (memory at) len) c

-- `USBD_HID_ReportOut`
unfoldable pub report_out : Platform → ℕ → ℕ → HidCtx → ReturnType × HidCtx
report_out p at len c =
    if not (c.itf.out_ep_num == 0)
    then on_hid_result (ep_receive p c.itf.out_ep_num (memory at) len) c
    else (e_error, c)
