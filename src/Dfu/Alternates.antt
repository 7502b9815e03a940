-- ===== src/Dfu/Alternates.antt =====
-- The build of Class/DFU/usbd_dfu.c with USBD_DFU_ALTSETTINGS: an application for each alternate setting.
use usbdevice.Base.{
  ℕ, ◌+◌, ◌*◌, ◌/◌, ◌%◌, ◌<◌, ◌≤◌, ◌≡◌, zero, suc, arith, refl, ap, ◌∙◌, Bool, false, ◌&&◌, ◌||◌,
  Option, none, some, List, [], ◌∷◌, ◌++◌, length, map, ◌==◌, if◌then◌else◌,
}
use usbdevice.Device.{Platform, touch_if}
use usbdevice.World.{World, Class, on_dev}
use usbdevice.Text.{string_desc}
use usbdevice.Descriptor.{send_written, get_string, if_string}
use usbdevice.Request.{bit}
use usbdevice.Cdc.Mount.{walk, field}
use usbdevice.Dfu.{App, attributes}
use usbdevice.Dfu.Requests.{is_some}
use usbdevice.Dfu.Setup.{func_desc}

-- An element of `App`, with its `Name`: `none` for NULL.
pub record Alternate : Type 0 where
  pub app : App
  pub name : Option (List ℕ)

-- `dfu_desc.DFU` with the numbers of the interface and of the setting.
unfoldable pub alt_if_desc : ℕ → ℕ → List ℕ
alt_if_desc if_num n =
    9 ∷ 4 ∷ if_num ∷ n % 256 ∷ 0 ∷ 0xFE ∷ 1 ∷ 1 ∷ (1 + if_num + 16 * n) % 256 ∷ []

-- `attrs |= k`, for a power of two.
abbrev or_bit : ℕ → ℕ → ℕ
or_bit k attrs = if attrs / k % 2 == 0 then attrs + k else attrs

abbrev can_download : App → Bool
can_download a = is_some a.erase && is_some a.write

abbrev can_upload : App → Bool
can_upload a = is_some a.read

abbrev add_attributes : App → ℕ → ℕ
add_attributes a attrs =
    let down = if can_download a then or_bit 1 attrs else attrs in
    if can_upload a then or_bit 2 down else down

-- The loop of `dfu_getAltsDesc`: what it has copied, and the attributes that it has collected.
unfoldable pub alts_loop : ℕ → ℕ → List Alternate → ℕ → List ℕ × ℕ
alts_loop if_num n [] attrs = ([], attrs)
alts_loop if_num n (s ∷ ss) attrs =
    let rest = alts_loop if_num (n + 1) ss (add_attributes s.app attrs) in
    (alt_if_desc if_num n ++ rest.0, rest.1)

-- `dfu_getAltsDesc`
unfoldable pub get_alts_desc : Platform → Bool → ℕ → List Alternate → ℕ → List ℕ
get_alts_desc p tolerant timeout ss if_num =
    let v = alts_loop if_num 0 ss (attributes tolerant) in v.0 ++ func_desc p v.1 timeout

-- `dfu_getString`
unfoldable pub alt_string : List Alternate → ℕ → Option (List ℕ)
alt_string [] n = none
alt_string (s ∷ ss) zero = s.name
alt_string (s ∷ ss) (suc n) = alt_string ss n

-- What a host reads of a descriptor: its type, the numbers of the interface and of the setting, and
-- the index of the string.
abbrev pub seen : List ℕ → ℕ × ℕ × ℕ × ℕ
seen l = (field 1 l, field 2 l, field 3 l, field 8 l)

-- The settings from `n` on, as a host is to see them.
abbrev pub settings : ℕ → ℕ → List Alternate → List (ℕ × ℕ × ℕ × ℕ)
settings if_num n [] = []
settings if_num n (s ∷ ss) = (4, if_num, n, 1 + if_num + 16 * n) ∷ settings if_num (n + 1) ss

unfoldable pub any_download : List Alternate → Bool
any_download [] = false
any_download (s ∷ ss) = can_download s.app || any_download ss

unfoldable pub any_upload : List Alternate → Bool
any_upload [] = false
any_upload (s ∷ ss) = can_upload s.app || any_upload ss

add_attributes_lem :
    (k : ℕ) (x y : Bool) (a : App)
    → add_attributes a (4 * k + bit x + 2 * bit y)
      ≡ 4 * k + bit (x || can_download a) + 2 * bit (y || can_upload a)
add_attributes_lem k x y a = ground arith

-- The settings of the loop as a host walks them, in front of `tail`.
loop-walk :
    (if_num n fuel : ℕ) (ss : List Alternate) (attrs : ℕ) (tail : List ℕ)
    → if_num < 15
    → n + length ss ≤ 16
    → map seen (walk (length ss + fuel) ((alts_loop if_num n ss attrs).0 ++ tail))
      ≡ settings if_num n ss ++ map seen (walk fuel tail)
unfolding alts_loop alt_if_desc walk
loop-walk if_num n fuel [] attrs tail h k =
    let none_left : 0 + fuel ≡ fuel = omega arith in rw none_left refl
loop-walk if_num n fuel (s ∷ ss) attrs tail h k =
    let rest = loop-walk if_num (n + 1) fuel ss (add_attributes s.app attrs) tail h (omega arith) in
    let small : n % 256 ≡ n = omega arith in
    let index : (1 + if_num + 16 * n) % 256 ≡ 1 + if_num + 16 * n = omega arith in
    let one_more : length (s ∷ ss) + fuel ≡ suc (length ss + fuel) = omega arith in
    rw (one_more, rest, small, index) refl

loop-attributes :
    (k if_num n : ℕ) (x y : Bool) (ss : List Alternate) (attrs : ℕ)
    → attrs ≡ 4 * k + bit x + 2 * bit y
    → (alts_loop if_num n ss attrs).1
      ≡ 4 * k + bit (x || any_download ss) + 2 * bit (y || any_upload ss)
unfolding alts_loop any_download any_upload
loop-attributes k if_num n x y [] attrs e = ground arith
loop-attributes k if_num n x y (s ∷ ss) attrs e =
    let d = can_download s.app in
    let u = can_upload s.app in
    let added = ap (add_attributes s.app) e ∙ add_attributes_lem k x y s.app in
    loop-attributes k if_num (n + 1) (x || d) (y || u) ss (add_attributes s.app attrs) added
    ∙ ground arith

-- A host that walks the descriptor of the interface by its lengths finds an interface descriptor for
-- every application, in their order, with the numbers from 0 on, and then one functional descriptor,
-- which offers the download when any application can erase and write, and the upload when any can
-- read. (For one of the first 15 interfaces, with at most 16 applications.)
pub settings_found :
    (p : Platform) (t : Bool) (timeout if_num : ℕ) (ss : List Alternate)
    → if_num < 15
    → length ss ≤ 16
    → map seen (walk (length ss + 1) (get_alts_desc p t timeout ss if_num))
      ≡ settings if_num 0 ss
        ++ ((0x21, attributes t + bit (any_download ss) + 2 * bit (any_upload ss), timeout % 256, 1)
            ∷ [])
unfolding get_alts_desc walk
settings_found p t timeout if_num ss h k =
    let all =
      loop-walk if_num 0 1 ss (attributes t)
        (func_desc p (alts_loop if_num 0 ss (attributes t)).1 timeout) h (omega arith) in
    let offers =
      loop-attributes (attributes t / 4) if_num 0 false false ss (attributes t) (ground arith) in
    let one : (alts_loop if_num 0 ss (attributes t)).1
        ≡ attributes t + bit (any_download ss) + 2 * bit (any_upload ss) =
      offers ∙ ground arith in
    all ∙ rw one refl

alt_string_lem :
    (before : List Alternate) (s : Alternate) (after : List Alternate)
    → alt_string (before ++ (s ∷ after)) (length before) ≡ s.name
unfolding alt_string
alt_string_lem [] s after = refl
alt_string_lem (b ∷ before) s after = alt_string_lem before s after

-- The string request with the index that a setting's descriptor states is answered by the name of its
-- application, the one behind as many others in the array as the number of the setting says. (For a
-- mounted interface, one of the first 15, whose class has the strings of this array, a setting below
-- 16 and an application with a name.)
pub setting_named :
    {S : Type 0} (p : Platform) (c : Class S) (w : World S) (before : List Alternate)
    (s : Alternate) (after : List Alternate) (if_num : ℕ) (name : List ℕ)
    → if_num < 15
    → if_num < w.dev.if_count
    → length before < 16
    → s.name ≡ some name
    → c.get_string (w.itf (w.dev.ifs if_num)).body
      ≡ some (λ r k v. alt_string (before ++ (s ∷ after)) k)
    → w.dev.setup.value % 256 ≡ field 8 (alt_if_desc if_num (length before))
    → get_string p c w ≡ send_written p c (string_desc name) (on_dev (touch_if p if_num) w)
unfolding get_string if_string alt_if_desc
setting_named p c w before s after if_num name small mounted setting named strings index =
    let n = length before in
    let value : w.dev.setup.value % 256 ≡ 1 + if_num + 16 * n = omega (arith, index) in
    let place : (w.dev.setup.value % 16 + 255) % 256 ≡ if_num = omega (arith, value) in
    let inner : w.dev.setup.value % 256 / 16 ≡ n = omega (arith, value) in
    let found = alt_string_lem before s after ∙ named in
    rw (place, inner, strings, found) (ground (arith, value))
