-- ===== src/Sha256/Roots.antt =====
-- Where FIPS 180-4 takes the constants of SHA-256 from: the fractional parts of the square and the
-- cube roots of the first primes.
use dhruvaos.Base.{
  ℕ, zero, suc, ◌+◌, ◌-◌, ◌*◌, ◌%◌, ◌^◌, ◌≤◌, ◌<◌, ◌≡◌, inl, inr, Bool, false, ◌||◌, List, [], ◌∷◌,
  arith, leb, ◌==◌, if◌then◌else◌, Bool-cases,
}
use native.Mathlib.Nat.{pow-suc}

-- Does one of 2, …, `d + 1` divide `n`?
unfoldable pub has_divisor : ℕ → ℕ → Bool
has_divisor zero n = false
has_divisor (suc d) n = (n % (d + 2) == 0) || has_divisor d n

-- The primes among the `count` numbers from `n` on, where `n` is 2 or more.
unfoldable pub primes_from : ℕ → ℕ → List ℕ
primes_from zero n = []
primes_from (suc count) n =
    let rest = primes_from count (n + 1) in if has_divisor (n - 2) n then rest else n ∷ rest

unfoldable pub square : ℕ → ℕ
square r = r * r

unfoldable pub cube : ℕ → ℕ
cube r = r * r * r

-- The root of `x` under a growing `f`, rounded down: bit by bit, on top of `r`.
unfoldable pub root : (ℕ → ℕ) → ℕ → ℕ → ℕ → ℕ
root f x zero r = r
root f x (suc bits) r = root f x bits (if leb (f (r + 2 ^ bits)) x then r + 2 ^ bits else r)

-- A number whose image is the last one that is not above `x`.
pub record IsRoot (f : ℕ → ℕ) (x r : ℕ) : Type 0 where
  pub lower : f r ≤ x
  pub upper : x < f (r + 1)

pub root-IsRoot :
    (f : ℕ → ℕ) (x bits r : ℕ) → f r ≤ x → x < f (r + 2 ^ bits) → IsRoot f x (root f x bits r)
unfolding root
root-IsRoot f x zero r lower upper = record { lower = lower; upper = upper }
root-IsRoot f x (suc bits) r lower upper =
    let double : r + 2 ^ suc bits ≡ r + 2 ^ bits + 2 ^ bits = omega (arith, pow-suc 2 bits) in
    elim (Bool-cases (leb (f (r + 2 ^ bits)) x)) [
      | inl e ↦ rw e (root-IsRoot f x bits (r + 2 ^ bits) (ground arith) (rw (← double) upper))
      | inr e ↦ rw e (root-IsRoot f x bits r lower (ground arith))
    ]

-- The first 32 bits of the fractional part of the roots of `p`.
unfoldable pub square_root_bits : ℕ → ℕ
square_root_bits p = root square (p * 2 ^ 64) 36 0 % 2 ^ 32

unfoldable pub cube_root_bits : ℕ → ℕ
cube_root_bits p = root cube (p * 2 ^ 96) 36 0 % 2 ^ 32
