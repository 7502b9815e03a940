-- ===== src/Text/Strings.antt =====
-- What a host reads from a string descriptor.
use usbdevice.Base.{
  ℕ, ◌+◌, ◌*◌, ◌<◌, ◌≡◌, ◌≢◌, refl, List, [], ◌∷◌, length, arith, ◌++◌, ◌/◌, ◌%◌, ap,
}
use usbdevice.Text.{ascii_units, unicode_units, unit_bytes, string_units, string_desc}

-- A host reads the units of a descriptor back from pairs of bytes.
abbrev pub read_units : List ℕ → List ℕ
read_units [] = []
read_units (x ∷ []) = []
read_units (x ∷ y ∷ xs) = (x + 256 * y) ∷ read_units xs

abbrev pub AllBytes : List ℕ → Type 0
AllBytes [] = Unit
AllBytes (x ∷ xs) = (x < 256) × AllBytes xs

abbrev pub AllUnits : List ℕ → Type 0
AllUnits [] = Unit
AllUnits (x ∷ xs) = (x < 65536) × AllUnits xs

pub length-unit_bytes : (us : List ℕ) → length (unit_bytes us) ≡ 2 * length us
unfolding unit_bytes
length-unit_bytes [] = refl
length-unit_bytes (u ∷ us) = omega (arith, length-unit_bytes us)

pub read_units-unit_bytes : (us : List ℕ) → AllUnits us → read_units (unit_bytes us) ≡ us
unfolding unit_bytes
read_units-unit_bytes [] h = refl
read_units-unit_bytes (u ∷ us) h = ground (arith, read_units-unit_bytes us h.1)

abbrev pub NoZero : List ℕ → Type 0
NoZero [] = Unit
NoZero (x ∷ xs) = (x ≢ 0) × NoZero xs

-- How a string stands in memory: in ASCII, a byte for each of at least two characters, and a zero; or
-- in Unicode, two bytes for each unit, the first of them below 256, and two zeros. Anything may follow.
pub data IsString : List ℕ → List ℕ → Type 0 where
  ascii :
      (x y : ℕ) (xs rest : List ℕ)
      → AllBytes (x ∷ y ∷ xs)
      → NoZero (x ∷ y ∷ xs)
      → IsString (x ∷ y ∷ xs) ((x ∷ y ∷ xs) ++ (0 ∷ rest))
  unicode :
      (x : ℕ) (xs rest : List ℕ)
      → x < 256
      → AllUnits xs
      → NoZero (x ∷ xs)
      → IsString (x ∷ xs) (unit_bytes (x ∷ xs) ++ (0 ∷ 0 ∷ rest))

AllBytes-AllUnits : (xs : List ℕ) → AllBytes xs → AllUnits xs
AllBytes-AllUnits [] h = tt
AllBytes-AllUnits (x ∷ xs) h = (let b = h.0 in omega arith, AllBytes-AllUnits xs h.1)

ascii_units_lem : (xs rest : List ℕ) → NoZero xs → ascii_units (xs ++ (0 ∷ rest)) ≡ xs
unfolding ascii_units
ascii_units_lem [] rest h = refl
ascii_units_lem (x ∷ xs) rest h = ground (arith, ascii_units_lem xs rest h.1)

unicode_units_lem :
    (us rest : List ℕ)
    → AllUnits us
    → NoZero us
    → unicode_units (unit_bytes us ++ (0 ∷ 0 ∷ rest)) ≡ us
unfolding unicode_units unit_bytes
unicode_units_lem [] rest h k = refl
unicode_units_lem (u ∷ us) rest h k =
    let below = h.0 in
    let whole : u % 256 + 256 * (u / 256 % 256) ≡ u = omega (arith, below) in
    rw whole (ground (arith, unicode_units_lem us rest h.1 k.1))

string_units_lem : (us str : List ℕ) → IsString us str → (string_units str ≡ us) × AllUnits us
unfolding string_units unit_bytes
string_units_lem _ _ (ascii x y xs rest b n) =
    (ground (arith, ascii_units_lem (x ∷ y ∷ xs) rest n), AllBytes-AllUnits (x ∷ y ∷ xs) b)
string_units_lem _ _ (unicode x xs rest lt b n) =
    let all : AllUnits (x ∷ xs) = (omega (arith, lt), b) in
    let high : x / 256 % 256 ≡ 0 = omega (arith, lt) in
    (ground (arith, high, unicode_units_lem (x ∷ xs) rest all n), all)

-- The descriptor of a string: its length, its type, and the units.
pub string_desc_lem :
    (us str : List ℕ)
    → IsString us str
    → length us < 127
    → string_desc str ≡ (2 + 2 * length us, (2 + 2 * length us) ∷ 3 ∷ unit_bytes us)
unfolding string_desc
string_desc_lem us str h lt =
    let (same, all) = string_units_lem us str h in
    let small : (2 + 2 * length us) % 256 ≡ 2 + 2 * length us = omega (arith, lt) in
    rw (same, small) refl

pub string_read :
    (us str : List ℕ)
    → IsString us str
    → read_units ((2 + 2 * length us) ∷ 3 ∷ unit_bytes us) ≡ (2 + 2 * length us + 256 * 3) ∷ us
string_read us str h =
    let (same, all) = string_units_lem us str h in
    ap (λ l. (2 + 2 * length us + 256 * 3) ∷ l) (read_units-unit_bytes us all)
