-- ===== src/Heap/Zero.antt =====
-- The loop that clears an allocation.
use native.Mathlib.Decide.{ℕ_discrete}
use dhruvaos.Base.{ℕ, zero, suc, ◌+◌, ◌<◌, ◌≤◌, ◌≡◌, ◌⊎◌, inl, refl, ◌∙◌, arith}
use dhruvaos.Heap.{zero_bytes}

pub zero_bytes-outside :
    (n p : ℕ) (memory : ℕ → ℕ) (a : ℕ) → (a < p) ⊎ (p + n ≤ a) → zero_bytes n p memory a ≡ memory a
unfolding zero_bytes
zero_bytes-outside zero p memory a h = refl
zero_bytes-outside (suc n) p memory a h =
    zero_bytes-outside n (p + 1) _ a (omega arith) ∙ ground arith

pub zero_bytes-inside :
    (n p : ℕ) (memory : ℕ → ℕ) (a : ℕ) → p ≤ a → a < p + n → zero_bytes n p memory a ≡ 0
unfolding zero_bytes
zero_bytes-inside zero p memory a h lt = absurd (omega arith)
zero_bytes-inside (suc n) p memory a h lt = elim (ℕ_discrete a p) [
  | yes here ↦ zero_bytes-outside n (p + 1) _ a (inl (omega arith)) ∙ ground arith
  | no later ↦ zero_bytes-inside n (p + 1) _ a (omega arith) (omega arith)
]
