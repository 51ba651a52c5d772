-- ===== src/Sd/Init/Divisor.antt =====
-- The divisor of the core clock in `stage0_sd_init`.
use native.Mathlib.Nat.{le-div_iff_mul-le, div-lt_iff_lt-mul}
use dhruvaos.Base.{
  ℕ, ◌+◌, ◌-◌, ◌*◌, ◌/◌, ◌^◌, ◌<◌, ◌≤◌, ◌≡◌, ◌⊎◌, ◌↔◌, inl, inr, refl, Bool-cases, ltb,
  if◌then◌else◌, arith,
}
use dhruvaos.Sd.Init.{divider, data_divisor}

-- `divider` takes the clock to at most the target, and one less would not.
abbrev IsFastest : ℕ → ℕ → Type 0
IsFastest clock n = (2 ≤ n) × (clock < 1000001 * n) × ((n ≡ 2) ⊎ (1000001 * (n - 1) ≤ clock))

quotient_large : (clock n : ℕ) → 0 < n → 1000000 < clock / n → 1000001 * n ≤ clock
quotient_large clock n pos h = (le-div_iff_mul-le pos).0 (omega arith)

large_quotient : (clock n : ℕ) → 0 < n → 1000001 * n ≤ clock → 1000000 < clock / n
large_quotient clock n pos h = omega (arith, (le-div_iff_mul-le {x = 1000001} {y = clock} pos).1 h)

quotient_small : (clock n : ℕ) → 0 < n → (clock / n ≤ 1000000) ↔ (clock < 1000001 * n)
quotient_small clock n pos =
    let h = div-lt_iff_lt-mul {k = n} {x = clock} {y = 1000001} pos in
    ((λ p. h.0 (omega arith)), (λ p. omega (arith, h.1 p)))

bump-IsFastest :
    (clock n : ℕ)
    → 2 ≤ n
    → n ≤ 5000
    → (n ≡ 2) ⊎ (1000000 * n ≤ clock)
    → clock < 1000000 * (n + 1)
    → IsFastest clock (if ltb 1000000 (clock / n) then n + 1 else n)
bump-IsFastest clock n two few low high = elim (Bool-cases (ltb 1000000 (clock / n))) [
  | inl e ↦ rw e (
    omega arith,
    omega arith,
    inr (omega (arith, quotient_large clock n (omega arith) (ground (arith, e)))),
  )
  | inr e ↦ rw e (two, (quotient_small clock n (omega arith)).0 (ground (arith, e)), omega arith)
]

divider-IsFastest : (clock : ℕ) → clock < 2 ^ 32 → IsFastest clock (divider clock)
unfolding divider
divider-IsFastest clock word = elim (Bool-cases (ltb (clock / 1000000) 2)) [
  | inl e ↦ rw e (bump-IsFastest clock 2 (omega arith) (omega arith) (inl refl) (ground (arith, e)))
  | inr e ↦ rw e (
      bump-IsFastest clock (clock / 1000000) (ground (arith, e)) (omega arith) (inr (omega arith))
        (omega arith))
]

-- What the register's limit leaves of it.
limit_lem :
    (clock n : ℕ)
    → IsFastest clock n
    → let d = if ltb 0x7FF (n - 2) then 0x7FF else n - 2 in
      (d ≤ 0x7FF)
      × ((clock / (d + 2) ≤ 1000000) ⊎ (d ≡ 0x7FF))
      × ((d ≡ 0) ⊎ (1000000 < clock / (d + 1)))
limit_lem clock n (two, small, least) = elim (Bool-cases (ltb 0x7FF (n - 2))) [
  | inl e ↦
      rw e
        (omega arith, inr refl, inr (large_quotient clock 2048 (omega arith) (ground (arith, e))))
  | inr e ↦
      let same : n - 2 + 2 ≡ n = omega arith in
      rw e (
        ground (arith, e),
        rw same (inl ((quotient_small clock n (omega arith)).1 small)),
        elim least [
          | inl two ↦ inl (omega arith)
          | inr h ↦ inr (large_quotient clock (n - 2 + 1) (omega arith) (omega arith))
        ],
      )
]

-- For a core clock below 2 ^ 32 Hz the divisor fits its 11 bits; the card's clock is at most 1 MHz,
-- unless the divisor is at its limit; and the next smaller divisor would exceed 1 MHz, unless the
-- divisor is 0.
pub data_divisor_lem :
    (clock : ℕ)
    → clock < 2 ^ 32
    → (data_divisor clock ≤ 0x7FF)
      × ((clock / (data_divisor clock + 2) ≤ 1000000) ⊎ (data_divisor clock ≡ 0x7FF))
      × ((data_divisor clock ≡ 0) ⊎ (1000000 < clock / (data_divisor clock + 1)))
unfolding data_divisor
data_divisor_lem clock word = limit_lem clock (divider clock) (divider-IsFastest clock word)
