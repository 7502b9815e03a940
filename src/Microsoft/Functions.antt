-- ===== src/Microsoft/Functions.antt =====
-- The functions that the loop over the interfaces finds.
use usbdevice.Base.{
  ℕ, zero, suc, ◌+◌, ◌-◌, ◌≡◌, ◌≢◌, ◌⊎◌, inl, inr, sym, ◌∙◌, ap, arith, none, some, List, [], ◌∷◌,
  ◌==◌, ◌||◌, not, if◌then◌else◌, refl,
}
use usbdevice.Device.{Device}
use usbdevice.Microsoft.{functions, device_functions}

-- The interfaces that begin a function, of `k` from `n` on: those that are the first one or another one
-- than that before, each with its reference.
unfoldable pub starts : (ℕ → ℕ) → ℕ → ℕ → List (ℕ × ℕ)
starts ifs zero n = []
starts ifs (suc k) n =
    let rest = starts ifs k (n + 1) in
    if (n == 0) || not (ifs (n - 1) == ifs n) then (n, ifs n) ∷ rest else rest

module _ (ifs : ℕ → ℕ) where
  abbrev behind : ℕ → ℕ → List (ℕ × ℕ)
  behind k n = functions ifs k (n + 1) (some (ifs n))

  same_round : (k n : ℕ) → ifs n ≡ ifs (n + 1) → behind (suc k) n ≡ behind k (n + 1)
  unfolding functions
  same_round k n h = ground (arith, h, ap (λ r. functions ifs k (n + 1 + 1) (some r)) h)

  new_round :
      (k n : ℕ) → ifs n ≢ ifs (n + 1) → behind (suc k) n ≡ (n + 1, ifs (n + 1)) ∷ behind k (n + 1)
  unfolding functions
  new_round k n h = ground (arith, h)

  same_or_new : (n : ℕ) → (ifs n ≡ ifs (n + 1)) ⊎ (ifs n ≢ ifs (n + 1))
  same_or_new n = ground arith

  same_start :
      (k n : ℕ) → ifs n ≡ ifs (n + 1) → starts ifs (suc k) (n + 1) ≡ starts ifs k (n + 1 + 1)
  unfolding starts
  same_start k n h = let before : n + 1 - 1 ≡ n = omega arith in rw before (ground (arith, h))

  new_start :
      (k n : ℕ)
      → ifs n ≢ ifs (n + 1)
      → starts ifs (suc k) (n + 1) ≡ (n + 1, ifs (n + 1)) ∷ starts ifs k (n + 1 + 1)
  unfolding starts
  new_start k n h = let before : n + 1 - 1 ≡ n = omega arith in rw before (ground (arith, h))

  behind-starts : (k n : ℕ) → behind k n ≡ starts ifs k (n + 1)
  unfolding functions starts
  behind-starts zero n = refl
  behind-starts (suc k) n = elim (same_or_new n) [
    | inl e ↦ same_round k n e ∙ (behind-starts k (n + 1) ∙ sym (same_start k n e))
    | inr e ↦
        new_round k n e
        ∙ (ap (λ l. (n + 1, ifs (n + 1)) ∷ l) (behind-starts k (n + 1)) ∙ sym (new_start k n e))
  ]

  functions-starts : (k : ℕ) → functions ifs k 0 none ≡ starts ifs k 0
  unfolding functions starts
  functions-starts zero = refl
  functions-starts (suc k) = ap (λ l. (0, ifs 0) ∷ l) (behind-starts k 0)

-- The functions of a device are the interfaces that begin one: an interface that is mounted at places that
-- follow each other is one function.
pub functions_lem : (d : Device) → device_functions d ≡ starts d.ifs d.if_count 0
functions_lem d = functions-starts d.ifs d.if_count
