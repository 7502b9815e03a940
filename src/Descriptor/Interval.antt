-- ===== src/Descriptor/Interval.antt =====
-- The polling interval of a high speed endpoint.
use usbdevice.Base.{
  ℕ, zero, suc, ◌+◌, ◌*◌, ◌/◌, ◌%◌, ◌^◌, ◌≤◌, ◌<◌, ◌≡◌, arith, ltb, ltb→lt, ap, Bool-cases, inl,
  inr,
}
use native.Mathlib.Numerals.{towards_suc}
use usbdevice.Descriptor.{hs_interval_loop, ep_hs_interval}

pow_two_step : (i : ℕ) → 2 ^ (i + 1) ≡ 2 * 2 ^ i
pow_two_step i = simp towards_suc (omega arith)

hs_interval_loop_lem :
    (fuel i t : ℕ)
    → 2 ^ i ≤ t
    → t < 2 ^ (i + fuel)
    → (2 ^ hs_interval_loop fuel i t ≤ 2 * t) × (t < 2 ^ hs_interval_loop fuel i t)
unfolding hs_interval_loop
hs_interval_loop_lem zero i t h k =
    absurd (let e : 2 ^ (i + 0) ≡ 2 ^ i = ap (λ n. 2 ^ n) (omega arith) in omega arith)
hs_interval_loop_lem (suc fuel) i t h k =
    let e : 2 ^ (i + suc fuel) ≡ 2 ^ (i + 1 + fuel) = ap (λ n. 2 ^ n) (omega arith) in
    elim (Bool-cases (ltb t (2 * 2 ^ i))) [
      | inl low ↦ rw low (omega (arith, ltb→lt, pow_two_step i))
      | inr high ↦
          rw high
            (hs_interval_loop_lem fuel (i + 1) t (ground (arith, pow_two_step i)) (omega arith))
    ]

-- For an interval of 1 to 8191 milliseconds the field `v` stands for 2^(v - 1) microframes of 125
-- microseconds, the longest such time that is not above the interval.
ep_hs_interval_lem :
    (ms : ℕ)
    → 1 ≤ ms
    → ms ≤ 8191
    → (2 ^ ep_hs_interval ms ≤ 2 * (8 * ms)) × (8 * ms < 2 ^ ep_hs_interval ms)
unfolding ep_hs_interval
ep_hs_interval_lem ms lo hi =
    let e : ms * 1000 % 2 ^ 32 / 125 ≡ 8 * ms = omega arith in
    rw e (hs_interval_loop_lem 13 3 (8 * ms) (omega arith) (omega arith))
