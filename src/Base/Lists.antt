-- ===== src/Base/Lists.antt =====
-- Lists measured and indexed by native numbers, under the library's names, and writes into a buffer.
use Prim.Native.Nat.{ℕ, zero, suc, ◌+◌, ◌-◌, ◌≤◌, min}
use mathlib.Core.Path.{◌≡◌, refl, ap}
use mathlib.Core.List.{List, [], ◌∷◌, ◌++◌}
use native.Mathlib.Omega.{arith}

module _ {ℓ} {A : Type ℓ} where
  abbrev pub length : List A → ℕ
  length [] = 0
  length (x ∷ xs) = suc (length xs)

  abbrev pub get_or : List A → ℕ → A → A
  get_or [] i d = d
  get_or (x ∷ xs) zero d = x
  get_or (x ∷ xs) (suc i) d = get_or xs i d

  abbrev pub take : ℕ → List A → List A
  take zero xs = []
  take (suc n) [] = []
  take (suc n) (x ∷ xs) = x ∷ take n xs

  abbrev pub drop : ℕ → List A → List A
  drop zero xs = xs
  drop (suc n) [] = []
  drop (suc n) (x ∷ xs) = drop n xs

  pub length-append : (xs ys : List A) → length (xs ++ ys) ≡ length xs + length ys
  length-append [] ys = omega arith
  length-append (x ∷ xs) ys = omega (arith, length-append xs ys)

  pub length-take : (n : ℕ) (xs : List A) → length (take n xs) ≡ min n (length xs)
  length-take zero xs = omega arith
  length-take (suc n) [] = omega arith
  length-take (suc n) (x ∷ xs) = omega (arith, length-take n xs)

  pub length-drop : (n : ℕ) (xs : List A) → length (drop n xs) ≡ length xs - n
  length-drop zero xs = omega arith
  length-drop (suc n) [] = omega arith
  length-drop (suc n) (x ∷ xs) = omega (arith, length-drop n xs)

  -- `memcpy` of `ys` over the start of the buffer `xs`; what would pass its end is kept, and shows
  -- in the length.
  abbrev pub overwrite : List A → List A → List A
  overwrite ys xs = ys ++ drop (length ys) xs

  pub take-append : (ys xs : List A) → take (length ys) (ys ++ xs) ≡ ys
  take-append [] xs = refl
  take-append (y ∷ ys) xs = ap (λ l. y ∷ l) (take-append ys xs)

  -- A buffer keeps its length as long as what is written fits in it.
  pub length-overwrite :
      (ys xs : List A) → length ys ≤ length xs → length (overwrite ys xs) ≡ length xs
  length-overwrite ys xs h =
      omega (arith, length-append ys (drop (length ys) xs), length-drop (length ys) xs)
