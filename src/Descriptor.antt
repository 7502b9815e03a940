-- ===== src/Descriptor.antt =====
-- The descriptors of the device and their requests, Device/usbd_desc.c, in the build with
-- USBD_LPM_SUPPORT and USBD_MS_OS_DESC_VERSION 0; and USBD_IfString of Device/usbd_if.c.
pub mod Interval
pub mod Strings
use usbdevice.Base.{
  ℕ, zero, suc, ◌+◌, ◌*◌, ◌/◌, ◌%◌, ◌^◌, Bool, ◌&&◌, Option, none, some, List, [], ◌∷◌, ◌++◌, ltb,
  ◌==◌, if◌then◌else◌, length, overwrite,
}
use usbdevice.Device.{
  ReturnType, e_invalid, speed_full, speed_high, is_high, EndPointType, type_control,
  type_isochronous, type_bulk, type_interrupt, ctrl_data_buffer, rom, Platform, Device, get_ep,
  touch_if,
}
use usbdevice.Endpoint.{ep_addr2ref}
use usbdevice.Control.{ctrl_send_data}
use usbdevice.World.{World, Class, on_dev, on_dev_result}
use usbdevice.Text.{string_desc, uint2unicode}

-- A `uint16_t` in a descriptor, the low byte first.
abbrev pub le16 : ℕ → List ℕ
le16 n = (n % 256) ∷ (n / 256 % 256) ∷ []

abbrev pub spec_bcd : ℕ
spec_bcd = 0x0200

abbrev pub ep0_max_packet_size : ℕ
ep0_max_packet_size = 64

-- `usbd_langIdDesc`
abbrev pub lang_id_desc : List ℕ
lang_id_desc = 4 ∷ 3 ∷ le16 0x409

-- `usbd_devQualDesc`
abbrev pub dev_qual_desc : List ℕ
dev_qual_desc = 10 ∷ 6 ∷ le16 spec_bcd ++ (0 ∷ 0 ∷ 0 ∷ ep0_max_packet_size ∷ 1 ∷ 0 ∷ [])

-- `USBD_DeviceDesc`: the constant `usbd_deviceDesc` with the fields of this device.
unfoldable pub device_desc : Platform → Device → List ℕ
device_desc p d =
    18 ∷ 1 ∷ le16 spec_bcd
    ++ (0
        ∷ 0
        ∷ 0
        ∷ ((d.ep_out 0).max_packet_size % 256)
        ∷ (le16 d.desc.vendor_id
            ++ (le16 d.desc.product_id
                ++ (le16 d.desc.product_bcd
                    ++ (0x10 ∷ 0x20 ∷ (if p.serial_bcd_size == 0 then 0 else 0x30) ∷ 1 ∷ [])))))

-- `(uint8_t)` of an endpoint type
abbrev pub type_code : EndPointType → ℕ
type_code type_control = 0
type_code type_isochronous = 1
type_code type_bulk = 2
type_code type_interrupt = 3

-- `USBD_EpDesc`
unfoldable pub ep_desc : ℕ → Device → List ℕ
ep_desc addr d =
    let e = get_ep (ep_addr2ref addr) d in
    7 ∷ 5 ∷ addr ∷ type_code e.type ∷ (le16 e.max_packet_size ++ (1 ∷ []))

-- `USBD_EpHsInterval`: the loop counts `i` from 3 to 16, in `fuel` rounds at most.
unfoldable pub hs_interval_loop : ℕ → ℕ → ℕ → ℕ
hs_interval_loop zero i interval_125us = i
hs_interval_loop (suc fuel) i interval_125us =
    let rest = hs_interval_loop fuel (i + 1) interval_125us in
    if ltb interval_125us (2 * 2 ^ i) then i + 1 else rest

unfoldable pub ep_hs_interval : ℕ → ℕ
ep_hs_interval interval_ms = hs_interval_loop 13 3 (interval_ms * 1000 % 2 ^ 32 / 125)

abbrev same_ref : Option ℕ → ℕ → Bool
same_ref none r = 0 == 1
same_ref (some q) r = q == r

module _ {S : Type 0} (p : Platform) (c : Class S) where
  -- `USBD_IfClass_GetDesc`: the bytes that the class writes.
  abbrev if_class_get_desc : Option (ℕ → ℕ → World S → List ℕ) → ℕ → ℕ → World S → List ℕ
  if_class_get_desc none r i w = []
  if_class_get_desc (some f) r i w = f r i w

  -- The loop of `USBD_ConfigDesc`: an interface that stands again behind itself is passed over.
  unfoldable pub config_loop : ℕ → ℕ → Option ℕ → World S → List ℕ
  config_loop zero i prev w = []
  config_loop (suc fuel) i prev w =
      let r = w.dev.ifs i in
      let skip = config_loop fuel (i + 1) prev w in
      let more =
        if_class_get_desc (c.get_descriptor (w.itf r).body) r i w
        ++ config_loop fuel (i + 1) (some r) w in
      if ltb i w.dev.if_count then (if same_ref prev r then skip else more) else []

  -- `USBD_ConfigDesc`: the returned length and the bytes written.
  unfoldable pub config_desc : World S → ℕ × List ℕ
  config_desc w =
      let body = config_loop 256 0 none w in
      let total = (9 + length body) % 2 ^ 16 in
      (
        total,
        9 ∷ 2 ∷ le16 total
            ++ ((w.dev.if_count % 256)
                ∷ 1
                ∷ 0x40
                ∷ (0x80 + w.dev.desc.config_b % 128)
                ∷ (w.dev.desc.max_current_ma / 2 % 256)
                ∷ body),
      )

  -- `USBD_IfClass_GetString`
  abbrev if_class_get_string :
      Option (ℕ → ℕ → World S → Option (List ℕ)) → ℕ → ℕ → World S → Option (List ℕ)
  if_class_get_string none r n w = none
  if_class_get_string (some f) r n w = f r n w

  -- The interface that `USBD_IfString` looks up, which is read from `IF` before it is tested.
  abbrev pub string_if : World S → ℕ
  string_if w = (w.dev.setup.value % 16 + 255) % 256

  -- `USBD_IfString`
  unfoldable pub if_string : World S → Option (List ℕ)
  if_string w =
      let i = string_if w in
      let r = w.dev.ifs i in
      if ltb i w.dev.if_count
      then if_class_get_string (c.get_string (w.itf r).body) r (w.dev.setup.value % 256 / 16) w
      else none

  -- A descriptor that is written to `CtrlData`, and sent unless its length is 0.
  unfoldable pub send_written : ℕ × List ℕ → World S → ReturnType × World S
  send_written (len, bytes) w =
      let v = on_dev (λ d. record d { ctrl_data = overwrite bytes d.ctrl_data }) w in
      if len == 0 then (e_invalid, v) else on_dev_result (ctrl_send_data p ctrl_data_buffer len) v

  -- A constant descriptor is sent from where it stands.
  unfoldable pub send_rom : List ℕ → World S → ReturnType × World S
  send_rom bytes w = on_dev_result (ctrl_send_data p (rom bytes) (length bytes)) w

  abbrev pub send_if_string : Option (List ℕ) → World S → ReturnType × World S
  send_if_string none w = (e_invalid, w)
  send_if_string (some str) w = send_written (string_desc str) w

  -- The case USB_DESC_TYPE_STRING of `USBD_GetDescriptor`.
  unfoldable pub get_string : World S → ReturnType × World S
  get_string w =
      let i = w.dev.setup.value % 256 in
      if i == 0x00
      then send_rom lang_id_desc w
      else if i == 0x10
      then send_written (string_desc w.dev.desc.vendor_name) w
      else if i == 0x20
      then send_written (string_desc w.dev.desc.product_name) w
      else if i == 0x40
      then send_written (string_desc w.dev.desc.config_name) w
      else if (i == 0x30) && ltb 0 p.serial_bcd_size
      then send_written
          (
            2 + p.serial_bcd_size * 2,
            (2 + p.serial_bcd_size * 2) % 256
                ∷ 3
                ∷ uint2unicode w.dev.desc.serial_number p.serial_bcd_size,
          )
          w
      else send_if_string (if_string w) (on_dev (touch_if p (string_if w)) w)

  -- The case USB_DESC_TYPE_OTHER_SPEED_CONFIG: the descriptor is made as for full speed.
  unfoldable pub other_speed_config : World S → ReturnType × World S
  other_speed_config w =
      let full = on_dev (λ d. record d { speed = speed_full }) w in
      let back = on_dev (λ d. record d { speed = speed_high }) w in
      if is_high w.dev.speed then send_written (config_desc full) back else (e_invalid, w)

  -- `USBD_GetDescriptor`
  unfoldable pub get_descriptor : World S → ReturnType × World S
  get_descriptor w =
      let t = w.dev.setup.value / 256 in
      if t == 1
      then send_written (18, device_desc p w.dev) w
      else if t == 2
      then send_written (config_desc w) w
      else if t == 3
      then get_string w
      else if (t == 6) && p.hs_support
      then (if is_high w.dev.speed then send_rom dev_qual_desc w else (e_invalid, w))
      else if (t == 7) && p.hs_support
      then other_speed_config w
      else (e_invalid, w)
