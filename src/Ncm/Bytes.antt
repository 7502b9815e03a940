-- ===== src/Ncm/Bytes.antt =====
-- Fields of the pages: what a write leaves to later reads.
use usbdevice.Base.{
  ℕ, zero, suc, ◌+◌, ◌*◌, ◌%◌, ◌≤◌, ◌<◌, ◌≡◌, ◌⊎◌, inl, inr, refl, arith, List, [], ◌∷◌,
}
use usbdevice.Ncm.{Bytes, get16, get32, put16, put32}

-- The bytes that two contents have in common, from `lo` up to `hi`.
abbrev pub Same : ℕ → ℕ → Bytes → Bytes → Type 0
Same lo hi b b' = (j : ℕ) → lo ≤ j → j < hi → b' j ≡ b j

pub get16-put16_self : (i v : ℕ) (b : Bytes) → v < 65536 → get16 (put16 i v b) i ≡ v
unfolding get16 put16
get16-put16_self i v b h = ground arith

pub get16-put16_ne :
    (i j v : ℕ) (b : Bytes) → (j + 2 ≤ i) ⊎ (i + 2 ≤ j) → get16 (put16 i v b) j ≡ get16 b j
unfolding get16 put16
get16-put16_ne i j v b h = ground arith

-- Two fields at different multiples of 2.
pub get16-put16_apart :
    (i j v : ℕ) (b : Bytes) → i % 2 ≡ j % 2 → (i < j) ⊎ (j < i) → get16 (put16 i v b) j ≡ get16 b j
get16-put16_apart i j v b m (inl h) = get16-put16_ne i j v b (inr (omega arith))
get16-put16_apart i j v b m (inr h) = get16-put16_ne i j v b (inl (omega arith))

pub byte-put16_ne : (i j v : ℕ) (b : Bytes) → (j < i) ⊎ (i + 2 ≤ j) → put16 i v b j ≡ b j
unfolding put16
byte-put16_ne i j v b h = ground arith

pub get32-put32_self : (i v : ℕ) (b : Bytes) → v < 65536 * 65536 → get32 (put32 i v b) i ≡ v
unfolding get32 put32 get16 put16
get32-put32_self i v b h = ground arith

pub byte-put32_ne : (i j v : ℕ) (b : Bytes) → (j < i) ⊎ (i + 4 ≤ j) → put32 i v b j ≡ b j
unfolding put32 put16
byte-put32_ne i j v b h = ground arith

-- Contents that have their bytes in common have their fields in common.
pub get16-Same :
    (i lo hi : ℕ) (b b' : Bytes) → Same lo hi b b' → lo ≤ i → i + 2 ≤ hi → get16 b' i ≡ get16 b i
unfolding get16
get16-Same i lo hi b b' s l h =
    omega (arith, s i l (omega arith), s (i + 1) (omega arith) (omega arith))

pub get32-Same :
    (i lo hi : ℕ) (b b' : Bytes) → Same lo hi b b' → lo ≤ i → i + 4 ≤ hi → get32 b' i ≡ get32 b i
unfolding get32
get32-Same i lo hi b b' s l h = omega (
  arith,
  get16-Same i lo hi b b' s l (omega arith),
  get16-Same (i + 2) lo hi b b' s (omega arith) (omega arith),
)

-- The `n` bytes from the offset `at` on.
unfoldable pub read_bytes : Bytes → ℕ → ℕ → List ℕ
read_bytes b at zero = []
read_bytes b at (suc n) = b at ∷ read_bytes b (at + 1) n

pub read_bytes-Same :
    (at n lo hi : ℕ) (b b' : Bytes)
    → Same lo hi b b'
    → lo ≤ at
    → at + n ≤ hi
    → read_bytes b' at n ≡ read_bytes b at n
unfolding read_bytes
read_bytes-Same at zero lo hi b b' s l h = refl
read_bytes-Same at (suc n) lo hi b b' s l h = ground (
  arith,
  s at l (omega arith),
  read_bytes-Same (at + 1) n lo hi b b' s (omega arith) (omega arith),
)
