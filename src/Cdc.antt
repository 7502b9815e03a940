-- ===== src/Cdc.antt =====
-- The communication class, abstract control model: the types of Include/usbd_cdc.h, and the callbacks
-- and exported functions of Class/CDC/usbd_cdc.c.
pub mod Mount
pub mod Coding
pub mod Transmit
pub mod Walk
use usbdevice.Base.{
  ℕ, ◌+◌, ◌-◌, ◌/◌, ◌%◌, ◌^◌, not, ◌&&◌, ◌||◌, Bool, true, false, Option, none, some, ltb, ◌==◌,
  if◌then◌else◌, bit_and,
}
use usbdevice.Device.{
  ReturnType, e_ok, e_error, e_invalid, type_class, type_bulk, type_interrupt, is_data, memory,
  Buffer, itf_field, line_coding_field, Platform, Device, EpRef, get_ep, same_ep,
}
use usbdevice.Endpoint.{ep_addr2ref, ep_open, ep_close, ep_send, ep_receive}
use usbdevice.Control.{ctrl_send_data, ctrl_receive_data}
use usbdevice.Bulk.{bulk_mps, reset_mps, start_of}

-- `USBD_CDC_LineCodingType`
pub record LineCoding : Type 0 where
  pub dte_rate : ℕ
  pub char_format : ℕ
  pub parity_type : ℕ
  pub data_bits : ℕ

-- `USBD_CDC_IfHandleType` and its `Config`, with its reference.
pub record Cdc : Type 0 where
  pub self : ℕ
  pub protocol : ℕ
  pub out_ep_num : ℕ
  pub in_ep_num : ℕ
  pub not_ep_num : ℕ
  pub line_coding : LineCoding
  pub transmit_length : ℕ

pub record CdcCtx : Type 0 where
  pub itf : Cdc
  pub dev : Device

-- The build options USBD_CDC_NOTEP_USED, USBD_CDC_CONTROL_LINE_USED and USBD_CDC_BREAK_SUPPORT.
pub record CdcOptions : Type 0 where
  pub notep_used : Bool
  pub control_line_used : Bool
  pub break_support : Bool

-- `USBD_CDC_AppType`: the functions of the application, `none` for NULL. They may call the stack.
pub record CdcApp : Type 0 where
  pub open_port : Option (LineCoding → CdcCtx → CdcCtx)
  pub close_port : Option (CdcCtx → CdcCtx)
  pub received : Option (ℕ → ℕ → CdcCtx → CdcCtx)
  pub transmitted : Option (ℕ → ℕ → CdcCtx → CdcCtx)
  pub set_ctrl_line : Option (ℕ → ℕ → CdcCtx → CdcCtx)
  pub send_break : Option (ℕ → CdcCtx → CdcCtx)

abbrev pub on_cdc : (Cdc → Cdc) → CdcCtx → CdcCtx
on_cdc f c = record c { itf = f c.itf }

abbrev pub on_cdc_dev : (Device → Device) → CdcCtx → CdcCtx
on_cdc_dev f c = record c { dev = f c.dev }

abbrev pub on_cdc_result : (Device → ReturnType × Device) → CdcCtx → ReturnType × CdcCtx
on_cdc_result f c = let (r, d) = f c.dev in (r, record c { dev = d })

-- `USBD_SAFE_CALLBACK`
abbrev tell_open : Option (LineCoding → CdcCtx → CdcCtx) → CdcCtx → CdcCtx
tell_open none c = c
tell_open (some f) c = f c.itf.line_coding c

abbrev tell_close : Option (CdcCtx → CdcCtx) → CdcCtx → CdcCtx
tell_close none c = c
tell_close (some f) c = f c

abbrev pub tell_data : Option (ℕ → ℕ → CdcCtx → CdcCtx) → ℕ → ℕ → CdcCtx → CdcCtx
tell_data none at len c = c
tell_data (some f) at len c = f at len c

-- `CDC_NOT_PACKET_SIZE`
abbrev pub not_packet_size : ℕ
not_packet_size = 8

-- `MaxPacketSize - 1` as a mask.
abbrev pub size_mask : ℕ → ℕ
size_mask mps = if mps == 0 then 2 ^ 32 - 1 else mps - 1

module _ (p : Platform) (o : CdcOptions) (app : CdcApp) where
  -- The notification endpoint is there if its number is in range.
  abbrev pub has_notep : Cdc → Bool
  has_notep i = o.notep_used && ltb (i.not_ep_num % 16) p.max_ep_count

  -- `cdc_init`
  unfoldable pub init : CdcCtx → CdcCtx
  init c =
      let i = c.itf in
      let mps = bulk_mps p c.dev in
      let bulk = ep_open p i.out_ep_num type_bulk mps (ep_open p i.in_ep_num type_bulk mps c.dev) in
      let all =
        if has_notep i then ep_open p i.not_ep_num type_interrupt not_packet_size bulk else bulk in
      tell_open app.open_port (record c { dev = all })

  -- `cdc_deinit`
  unfoldable pub deinit : CdcCtx → CdcCtx
  deinit c =
      let i = c.itf in
      let bulk = ep_close p i.out_ep_num (ep_close p i.in_ep_num c.dev) in
      let all = if has_notep i then ep_close p i.not_ep_num bulk else bulk in
      let told = tell_close app.close_port (record c { dev = all }) in
      if i.line_coding.data_bits == 0 then c else record told {
        itf = record told.itf { line_coding = record told.itf.line_coding { data_bits = 0 } };
        dev = reset_mps p told.itf.in_ep_num told.itf.out_ep_num told.dev;
      }

  abbrev line_state : CdcCtx → CdcCtx
  line_state c =
      let v = c.dev.setup.value in
      if o.control_line_used then tell_data app.set_ctrl_line (v % 2) (v / 2 % 2) c else c

  abbrev pass_break : Option (ℕ → CdcCtx → CdcCtx) → CdcCtx → ReturnType × CdcCtx
  pass_break none c = (e_invalid, c)
  pass_break (some f) c = (e_ok, f c.dev.setup.value c)

  -- `cdc_setupStage`
  unfoldable pub setup_stage : CdcCtx → ReturnType × CdcCtx
  setup_stage c =
      let q = c.dev.setup.request in
      let coding = itf_field c.itf.self line_coding_field in
      if not (c.dev.setup.type == type_class)
      then (e_invalid, c)
      else if q == 0x20
      then on_cdc_result (ctrl_receive_data p coding 7) (deinit c)
      else if q == 0x21
      then on_cdc_result (ctrl_send_data p coding 7) c
      else if q == 0x22
      then (e_ok, line_state c)
      else if (q == 0x23) && o.break_support
      then pass_break app.send_break c
      else (e_invalid, c)

  -- `cdc_dataStage`
  unfoldable pub data_stage : CdcCtx → CdcCtx
  data_stage c =
      if (c.dev.setup.request == 0x20) && not (c.itf.line_coding.data_bits == 0) then init c else c

  -- `cdc_outData`
  unfoldable pub out_data : EpRef → CdcCtx → CdcCtx
  out_data ep c =
      let e = get_ep ep c.dev in
      tell_data app.received (start_of e.transfer_data e.transfer_length) e.transfer_length c

  -- `USBD_CDC_Transmit` and `USBD_CDC_Receive`
  unfoldable pub transmit : Buffer → ℕ → CdcCtx → ReturnType × CdcCtx
  transmit buf len c = on_cdc_result (ep_send p c.itf.in_ep_num buf len) c

  unfoldable pub receive : Buffer → ℕ → CdcCtx → ReturnType × CdcCtx
  receive buf len c = on_cdc_result (ep_receive p c.itf.out_ep_num buf len) c

  -- A transfer of whole packets is split from the next by a zero length packet.
  abbrev pub splits : EpRef → Device → Bool
  splits ep d =
      let e = get_ep ep d in
      not (e.transfer_length == 0) && (bit_and e.transfer_length (size_mask e.max_packet_size) == 0)

  -- The length that is reported, and the state, before the application is told.
  unfoldable pub account : EpRef → CdcCtx → ℕ × CdcCtx
  account ep c =
      let e = get_ep ep c.dev in
      let noted = on_cdc (λ i. record i { transmit_length = e.transfer_length }) c in
      if e.transfer_length == 0
      then (c.itf.transmit_length, on_cdc (λ i. record i { transmit_length = 0 }) c)
      else if splits ep c.dev
      then (e.transfer_length, (transmit (memory e.transfer_data) 0 noted).1)
      else (e.transfer_length, c)

  unfoldable pub report : EpRef → ℕ × CdcCtx → CdcCtx
  report ep (len, c) =
      let e = get_ep ep c.dev in
      if is_data e.state then c else tell_data app.transmitted (start_of e.transfer_data len) len c

  -- `cdc_inData`
  unfoldable pub in_data : EpRef → CdcCtx → CdcCtx
  in_data ep c =
      if not o.notep_used || same_ep ep (ep_addr2ref c.itf.in_ep_num)
      then report ep (account ep c)
      else c

  -- `USBD_CDC_Notify`: `length` is the length of the data in the header of the message at `notice`.
  unfoldable pub notify : ℕ → ℕ → CdcCtx → ReturnType × CdcCtx
  notify notice length c =
      if ltb c.itf.not_ep_num p.max_ep_count
      then on_cdc_result (ep_send p c.itf.not_ep_num (memory notice) ((8 + length) % 65536)) c
      else (e_error, c)
