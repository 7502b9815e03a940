-- ===== src/Microsoft/Store.antt =====
-- The builds with USBD_LPM_SUPPORT or USBD_MS_OS_DESC_VERSION: the BOS descriptor and the MS OS string
-- of Device/usbd_desc.c, and the vendor request of `USBD_DevRequest` of Device/usbd.c.
use usbdevice.Base.{
  ℕ, ◌/◌, ◌%◌, Bool, true, false, ◌&&◌, ◌||◌, Option, List, [], ◌∷◌, ◌++◌, length, ◌==◌,
  if◌then◌else◌, overwrite,
}
use usbdevice.Device.{
  ReturnType, e_invalid, is_in, type_standard, req_get_descriptor, Platform, Device,
}
use usbdevice.World.{World, Class, on_dev, on_dev_result}
use usbdevice.Text.{string_desc}
use usbdevice.Descriptor.{le16, send_written, get_descriptor}
use usbdevice.Request.{dev_request}
use usbdevice.Microsoft.{ms_os_desc, get_ms_descriptor1, get_ms_descriptor2}

-- USBD_MS_OS_DESC_VERSION
pub data MsVersion : Type 0 where
  version_0 version_1 version_2 : MsVersion

-- The build options, and `Desc->Config.LPM`, the choice of the application.
pub record StoreOptions : Type 0 where
  pub version : MsVersion
  pub lpm_support : Bool
  pub lpm : Bool

-- `USB_DevCapabilityDescType`: the bits 1 and 2 tell of the link power management.
abbrev dev_capability : StoreOptions → List ℕ
dev_capability o = 7 ∷ 0x10 ∷ 2 ∷ (if o.lpm_support && o.lpm then 6 else 0) ∷ 0 ∷ 0 ∷ 0 ∷ []

-- `PlatformCapabilityUUID` of the MS OS 2.0 descriptors.
abbrev platform_uuid : List ℕ
platform_uuid =
    0xDF ∷ 0x60 ∷ 0xDD ∷ 0xD8 ∷ 0x89 ∷ 0x45 ∷ 0xC7 ∷ 0x4C ∷ 0x9C ∷ 0xD2 ∷ 0x65 ∷ 0x9D ∷ 0x9E ∷ 0x64
    ∷ 0x8A ∷ 0x9F ∷ []

-- `USB_MsPlatformCapabilityDescType`, for a set of this length.
abbrev platform_capability : ℕ → List ℕ
platform_capability len =
    28 ∷ 0x10 ∷ 5 ∷ 0 ∷ platform_uuid ++ (0 ∷ 0 ∷ 3 ∷ 6 ∷ (le16 len ++ (1 ∷ 0 ∷ [])))

abbrev is_2 : MsVersion → Bool
is_2 version_2 = true
is_2 _ = false

abbrev is_1 : MsVersion → Bool
is_1 version_1 = true
is_1 _ = false

-- The BOS descriptor, `usbd_bosDesc` with its fields of the moment: `len` is the length of the set.
unfoldable pub bos_desc : StoreOptions → ℕ → List ℕ
bos_desc o len =
    if is_2 o.version
    then 5 ∷ 0x0F ∷ 40 ∷ 0 ∷ 2 ∷ (dev_capability o ++ platform_capability len)
    else 5 ∷ 0x0F ∷ 12 ∷ 0 ∷ 1 ∷ dev_capability o

-- `usbd_msos1p0`, up to its zero.
abbrev msos1p0 : List ℕ
msos1p0 = b'M' ∷ b'S' ∷ b'F' ∷ b'T' ∷ b'1' ∷ b'0' ∷ b'0' ∷ 1 ∷ []

-- USB_REQ_TYPE_VENDOR, USB_REQ_MICROSOFT_OS, USB_DESC_TYPE_BOS and USBD_ISTR_MS_OS_1p0_DESC
abbrev pub type_vendor : ℕ
type_vendor = 2

abbrev pub req_microsoft_os : ℕ
req_microsoft_os = 1

abbrev pub desc_type_bos : ℕ
desc_type_bos = 0x0F

abbrev istr_ms_os : ℕ
istr_ms_os = 0xEE

module _ {S : Type 0} (p : Platform) (c : Class S) (o : StoreOptions)
    (compatible_id : ℕ → Option (List ℕ)) where
  -- The case USB_DESC_TYPE_BOS of `USBD_GetDescriptor`: the set is made for its length, and then
  -- overwritten.
  unfoldable pub get_bos : World S → ReturnType × World S
  get_bos w =
      let set = if is_2 o.version then ms_os_desc compatible_id w.dev else [] in
      let bos = bos_desc o (length set) in
      send_written p c (length bos, bos)
        (on_dev (λ d. record d { ctrl_data = overwrite set d.ctrl_data }) w)

  -- `USBD_GetDescriptor` with the two cases of these builds.
  unfoldable pub get_store_descriptor : World S → ReturnType × World S
  get_store_descriptor w =
      let v = w.dev.setup.value in
      if (v / 256 == desc_type_bos) && (o.lpm_support || is_2 o.version)
      then get_bos w
      else if (v / 256 == 3) && (v % 256 == istr_ms_os) && is_1 o.version
      then send_written p c (string_desc msos1p0) w
      else get_descriptor p c w

  -- `USBD_GetMsDescriptor` of the build.
  abbrev get_ms_descriptor : MsVersion → Device → ReturnType × Device
  get_ms_descriptor version_0 d = (e_invalid, d)
  get_ms_descriptor version_1 d = get_ms_descriptor1 compatible_id p d
  get_ms_descriptor version_2 d = get_ms_descriptor2 compatible_id p d

  -- `USBD_DevRequest` with the vendor request.
  unfoldable pub store_dev_request : World S → ReturnType × World S
  store_dev_request w =
      let s = w.dev.setup in
      if (s.type == type_standard) && (s.request == req_get_descriptor)
      then get_store_descriptor w
      else if (s.type == type_vendor) && (s.request == req_microsoft_os) && is_in s.direction
      then on_dev_result (get_ms_descriptor o.version) w
      else dev_request p c w
