-- ===== src/Text.antt =====
-- Strings as descriptors: USBD_GetStringDesc of Device/usbd_desc.c and Uint2Unicode of
-- Device/usbd_utils.c.
pub mod Strings
pub mod Hex
use usbdevice.Base.{
  ℕ, zero, suc, ◌+◌, ◌-◌, ◌*◌, ◌/◌, ◌%◌, Bool, true, false, List, [], ◌∷◌, ltb, ◌==◌, if◌then◌else◌,
  length, get_or,
}

-- The 16-bit units of a string, up to the first that is zero: a byte each in ASCII, two bytes each,
-- the low one first, in Unicode. Behind the list stands the terminator.
unfoldable pub ascii_units : List ℕ → List ℕ
ascii_units [] = []
ascii_units (x ∷ xs) = let rest = x ∷ ascii_units xs in if x == 0 then [] else rest

unfoldable pub unicode_units : List ℕ → List ℕ
unicode_units [] = []
unicode_units (x ∷ []) = if x == 0 then [] else x ∷ []
unicode_units (x ∷ y ∷ xs) =
    let rest = (x + 256 * y) ∷ unicode_units xs in if x + 256 * y == 0 then [] else rest

-- `uint16_t` units as they lie in memory, the low byte first.
unfoldable pub unit_bytes : List ℕ → List ℕ
unit_bytes [] = []
unit_bytes (u ∷ us) = (u % 256) ∷ (u / 256 % 256) ∷ unit_bytes us

-- A string is ASCII if its second byte is not zero.
unfoldable pub string_units : List ℕ → List ℕ
string_units str = if get_or str 1 0 == 0 then unicode_units str else ascii_units str

-- `USBD_GetStringDesc`: the returned length, which is the byte `data[0]`, and the bytes written.
unfoldable pub string_desc : List ℕ → ℕ × List ℕ
string_desc str =
    let us = string_units str in
    let len = (2 + 2 * length us) % 256 in (len, len ∷ 3 ∷ unit_bytes us)

-- The digit for a value below 16.
unfoldable pub hex_digit : ℕ → ℕ
hex_digit v = if ltb v 0xA then b'0' + v else b'A' + v - 10

-- `Uint2Unicode`, the loop: `high` tells whether the next digit is the high half of the byte at
-- `data`. The byte counter of the source counts to `2 * len`, so `len` is below 128.
unfoldable pub hex_loop : ℕ → Bool → List ℕ → List ℕ
hex_loop zero high xs = 0 ∷ 0 ∷ []
hex_loop (suc n) high [] = hex_digit 0 ∷ 0 ∷ hex_loop n high []
hex_loop (suc n) true (x ∷ xs) = hex_digit (x / 16) ∷ 0 ∷ hex_loop n false (x ∷ xs)
hex_loop (suc n) false (x ∷ xs) = hex_digit (x % 16) ∷ 0 ∷ hex_loop n true xs

unfoldable pub uint2unicode : List ℕ → ℕ → List ℕ
uint2unicode xs len = hex_loop len true xs
