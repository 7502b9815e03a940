-- ===== src/Text/Hex.antt =====
-- The serial number as hexadecimal digits.
use usbdevice.Base.{
  ℕ, suc, ◌+◌, ◌-◌, ◌*◌, ◌/◌, ◌%◌, ◌<◌, ◌≡◌, refl, List, [], ◌∷◌, ◌++◌, length, ltb, if◌then◌else◌,
  arith,
}
use usbdevice.Text.{hex_digit, hex_loop, uint2unicode}
use usbdevice.Text.Strings.{AllBytes, read_units}

-- The value of a digit `0` to `9` or `A` to `F`.
abbrev pub digit_value : ℕ → ℕ
digit_value c = if ltb c b'A' then c - b'0' else c - b'A' + 10

-- The bytes that a host reads back from pairs of digits.
abbrev pub read_hex : List ℕ → List ℕ
read_hex [] = []
read_hex (x ∷ []) = []
read_hex (x ∷ y ∷ xs) = (16 * digit_value x + digit_value y) ∷ read_hex xs

digit_value-hex_digit : (v : ℕ) → v < 16 → digit_value (hex_digit v + 256 * 0) ≡ v
unfolding hex_digit
digit_value-hex_digit v h = ground arith

-- For every number of bytes, two digits for each are written in order, each as a unit of two bytes,
-- then a zero unit: a host that reads the digits has the bytes again.
uint2unicode_lem :
    (xs : List ℕ) (rest : List ℕ)
    → AllBytes xs
    → read_hex (read_units (uint2unicode (xs ++ rest) (2 * length xs))) ≡ xs
unfolding uint2unicode hex_loop
uint2unicode_lem [] rest h = refl
uint2unicode_lem (x ∷ xs) rest h =
    let e : 2 * suc (length xs) ≡ suc (suc (2 * length xs)) = omega arith in
    let byte = h.0 in
    rw e (
      ground (
        arith,
        digit_value-hex_digit (x / 16) (omega arith),
        digit_value-hex_digit (x % 16) (omega arith),
        uint2unicode_lem xs rest h.1,
      ))
