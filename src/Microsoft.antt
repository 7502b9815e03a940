-- ===== src/Microsoft.antt =====
-- The Microsoft descriptors, Device/usbd_microsoft_os.c and Include/usb_microsoft_os.h, for both values of
-- USBD_MS_OS_DESC_VERSION that build them.
pub mod Found
pub mod Functions
pub mod Sizes
pub mod Store
use usbdevice.Base.{
  ℕ, zero, suc, ◌+◌, ◌*◌, ◌/◌, ◌%◌, Bool, true, false, Option, none, some, List, [], ◌∷◌, ◌++◌,
  length, ◌==◌, if◌then◌else◌, overwrite,
}
use usbdevice.Device.{ReturnType, e_invalid, ctrl_data_buffer, Platform, Device}
use usbdevice.Control.{ctrl_send_data}
use usbdevice.Descriptor.{le16}

-- `strncpy` to a field of `n` bytes.
unfoldable pub copy_string : ℕ → List ℕ → List ℕ
copy_string zero s = []
copy_string (suc n) [] = let rest = copy_string n [] in 0 ∷ rest
copy_string (suc n) (c ∷ s) =
    let end = copy_string n [] in let rest = copy_string n s in if c == 0 then 0 ∷ end else c ∷ rest

-- Whether an interface is the one before it again.
abbrev pub is_same : Option ℕ → ℕ → Bool
is_same none r = false
is_same (some q) r = q == r

-- The loop over the interfaces from the one with the number `n` on, `k` rounds of it: the number of the
-- first interface of each function, and its reference. `last` is the interface of the round before.
unfoldable pub functions : (ℕ → ℕ) → ℕ → ℕ → Option ℕ → List (ℕ × ℕ)
functions ifs zero n last = []
functions ifs (suc k) n last =
    let inside = functions ifs k (n + 1) last in
    let rest = functions ifs k (n + 1) (some (ifs n)) in
    if is_same last (ifs n) then inside else (n, ifs n) ∷ rest

abbrev pub device_functions : Device → List (ℕ × ℕ)
device_functions d = functions d.ifs d.if_count 0 none

-- `compatible_id` is the `MsCompatibleId` of the class of an interface, by its reference.
module _ (compatible_id : ℕ → Option (List ℕ)) where
  -- The two identifiers of a function, 8 bytes each.
  abbrev pub ids : Option (List ℕ) → List ℕ
  ids none = copy_string 16 []
  ids (some s) = copy_string 8 s ++ copy_string 8 []

  -- `USBD_MsOsCompatIdDesc`: the section of a function.
  unfoldable pub compat_section : ℕ × ℕ → List ℕ
  compat_section (n, r) = n ∷ 0 ∷ ids (compatible_id r) ++ copy_string 6 []

  unfoldable pub compat_sections : List (ℕ × ℕ) → List ℕ
  compat_sections [] = []
  compat_sections (f ∷ fs) = compat_section f ++ compat_sections fs

  -- `USBD_MsOsCompatIdDesc`
  unfoldable pub compat_id_desc : Device → List ℕ
  compat_id_desc d =
      let count = length (device_functions d) in
      let len = 16 + count % 256 * 24 in
      le16 len
      ++ (le16 (len / 65536)
          ++ (le16 0x100
              ++ (le16 4
                  ++ (count % 256 ∷ copy_string 7 [] ++ compat_sections (device_functions d)))))

  -- `USBD_MsOs2p0Desc`: the subset of a function, which is rolled back if it has no feature.
  abbrev pub subset : ℕ → Option (List ℕ) → List ℕ
  subset n none = []
  subset n (some s) =
      le16 8
      ++ (le16 2
          ++ (n ∷ 0 ∷ (le16 28 ++ (le16 20 ++ (le16 3 ++ (copy_string 8 s ++ copy_string 8 []))))))

  unfoldable pub subsets : List (ℕ × ℕ) → List ℕ
  subsets [] = []
  subsets ((n, r) ∷ fs) = subset n (compatible_id r) ++ subsets fs

  -- The subset of the configuration.
  unfoldable pub conf_subset : List ℕ → List ℕ
  conf_subset [] = []
  conf_subset (b ∷ l) = le16 8 ++ (le16 1 ++ (0 ∷ 0 ∷ (le16 (8 + length (b ∷ l)) ++ (b ∷ l))))

  -- The set, empty for the length 0.
  unfoldable pub desc_set : List ℕ → List ℕ
  desc_set [] = []
  desc_set (b ∷ l) =
      le16 10 ++ (le16 0 ++ (le16 0 ++ (le16 0x603 ++ (le16 (10 + length (b ∷ l)) ++ (b ∷ l)))))

  -- `USBD_MsOs2p0Desc`
  unfoldable pub ms_os_desc : Device → List ℕ
  ms_os_desc d = desc_set (conf_subset (subsets (device_functions d)))

  -- `USBD_GetMsDescriptor` in both builds: a descriptor is sent from the buffer of the device unless it is
  -- empty.
  abbrev pub send_desc : Platform → List ℕ → Device → ReturnType × Device
  send_desc p [] d = (e_invalid, d)
  send_desc p (b ∷ l) d =
      ctrl_send_data p ctrl_data_buffer (length (b ∷ l))
        (record d { ctrl_data = overwrite (b ∷ l) d.ctrl_data })

  unfoldable pub get_ms_descriptor1 : Platform → Device → ReturnType × Device
  get_ms_descriptor1 p d =
      if d.setup.index == 4 then send_desc p (compat_id_desc d) d else (e_invalid, d)

  unfoldable pub get_ms_descriptor2 : Platform → Device → ReturnType × Device
  get_ms_descriptor2 p d =
      if d.setup.index == 7 then send_desc p (ms_os_desc d) d else (e_invalid, d)
