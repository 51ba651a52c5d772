-- ===== src/Memory.antt =====
-- `strlen` and `memcpy` of boot/rpi1/runtime_stubs.c, boot/rpi4/runtime_stubs_rpi4.c and
-- boot/stage0/sdread.c, over a memory by address.
use native.Mathlib.Decide.{ℕ_discrete}
use mathlib.Core.Path.{subst}
use dhruvaos.Base.{
  ℕ, zero, suc, ◌+◌, ◌<◌, ◌≤◌, ◌≡◌, ◌≢◌, ◌⊎◌, inl, refl, ap, ◌-◌, ◌∙◌, arith, Option, none, some,
  ◌==◌, if◌then◌else◌, true, false,
}

-- `while (s[n] != '\0')` from index `n` on, on fuel.
unfoldable pub strlen_from : ℕ → (ℕ → ℕ) → ℕ → ℕ → Option ℕ
strlen_from zero memory s n = none
strlen_from (suc fuel) memory s n =
    let rest = strlen_from fuel memory s (n + 1) in if memory (s + n) == 0 then some n else rest

unfoldable pub strlen : ℕ → (ℕ → ℕ) → ℕ → Option ℕ
strlen fuel memory s = strlen_from fuel memory s 0

-- The loop of `memcpy` at index `i` with `left` bytes to go.
unfoldable pub copy_from : ℕ → ℕ → ℕ → ℕ → (ℕ → ℕ) → ℕ → ℕ
copy_from zero i dst src memory = memory
copy_from (suc left) i dst src memory =
    copy_from left (i + 1) dst src (λ a. if a == dst + i then memory (src + i) else memory a)

unfoldable pub memcpy : ℕ → ℕ → ℕ → (ℕ → ℕ) → ℕ → ℕ
memcpy n dst src memory = copy_from n 0 dst src memory

-- The same loops on the Raspberry Pi 4, and the `memcpy` of boot/stage0/sdread.c.
abbrev pub strlen_rpi4 : ℕ → (ℕ → ℕ) → ℕ → Option ℕ
strlen_rpi4 = strlen

abbrev pub memcpy_rpi4 : ℕ → ℕ → ℕ → (ℕ → ℕ) → ℕ → ℕ
memcpy_rpi4 = memcpy

abbrev pub memcpy_stage0 : ℕ → ℕ → ℕ → (ℕ → ℕ) → ℕ → ℕ
memcpy_stage0 = memcpy

strlen_from_lem :
    (memory : ℕ → ℕ) (s k n : ℕ)
    → ((i : ℕ) → n ≤ i → i < n + k → memory (s + i) ≢ 0)
    → memory (s + (n + k)) ≡ 0
    → (extra : ℕ) → strlen_from (suc k + extra) memory s n ≡ some (n + k)
unfolding strlen_from
strlen_from_lem memory s zero n h end extra =
    let f : suc zero + extra ≡ suc extra = omega arith in
    let e : n + 0 ≡ n = omega arith in
    let here : memory (s + n) ≡ 0 = subst (λ m. memory (s + m) ≡ 0) e end in
    let stop : (memory (s + n) == 0) ≡ true = ground (arith, here) in rw (f, stop, e) refl
strlen_from_lem memory s (suc k) n h end extra =
    let f : suc (suc k) + extra ≡ suc (suc k + extra) = omega arith in
    let e : n + suc k ≡ n + 1 + k = omega arith in
    let on : (memory (s + n) == 0) ≡ false = ground (arith, h n (omega arith) (omega arith)) in
    rw (f, on, e)
      (strlen_from_lem memory s k (n + 1) (λ i p q. h i (omega arith) (omega arith))
        (subst (λ m. memory (s + m) ≡ 0) e end) extra)

-- When the `n` bytes from `s` on are not 0 and the next one is, `strlen` returns `n`, on any fuel
-- above `n`.
pub strlen_lem :
    (memory : ℕ → ℕ) (s n fuel : ℕ)
    → ((i : ℕ) → i < n → memory (s + i) ≢ 0)
    → memory (s + n) ≡ 0
    → n < fuel
    → strlen fuel memory s ≡ some n
unfolding strlen
strlen_lem memory s n fuel h end enough =
    let e : 0 + n ≡ n = omega arith in
    let f : suc n + (fuel - suc n) ≡ fuel = omega arith in
    subst (λ t. strlen_from t memory s 0 ≡ some n) f
      (strlen_from_lem memory s n 0 (λ i p q. h i (omega arith)) (rw e end) (fuel - suc n)
        ∙ ap some e)

copy_from-outside :
    (left i dst src : ℕ) (memory : ℕ → ℕ) (a : ℕ)
    → (a < dst + i) ⊎ (dst + i + left ≤ a)
    → copy_from left i dst src memory a ≡ memory a
unfolding copy_from
copy_from-outside zero i dst src memory a h = refl
copy_from-outside (suc left) i dst src memory a h =
    copy_from-outside left (i + 1) dst src _ a (omega arith) ∙ ground arith

copy_from-inside :
    (left i dst src : ℕ) (memory : ℕ → ℕ) (j : ℕ)
    → (dst ≤ src) ⊎ (src + i + left ≤ dst)
    → i ≤ j
    → j < i + left
    → copy_from left i dst src memory (dst + j) ≡ memory (src + j)
unfolding copy_from
copy_from-inside zero i dst src memory j apart p q = absurd (omega arith)
copy_from-inside (suc left) i dst src memory j apart p q = elim (ℕ_discrete i j) [
  | yes here ↦
      copy_from-outside left (i + 1) dst src _ (dst + j) (inl (omega arith))
      ∙ (rw here (ground arith))
  | no later ↦
      copy_from-inside left (i + 1) dst src _ j (omega arith) (omega arith) (omega arith)
      ∙ ground arith
]

-- When the destination does not start inside the source behind its first byte, `memcpy` leaves the
-- `n` source bytes, as they were before, at the destination, and changes nothing else.
pub memcpy_lem :
    (n dst src : ℕ) (memory : ℕ → ℕ)
    → (dst ≤ src) ⊎ (src + n ≤ dst)
    → ((j : ℕ) → j < n → memcpy n dst src memory (dst + j) ≡ memory (src + j))
      × ((a : ℕ) → (a < dst) ⊎ (dst + n ≤ a) → memcpy n dst src memory a ≡ memory a)
unfolding memcpy
memcpy_lem n dst src memory apart = (
  λ j q. copy_from-inside n 0 dst src memory j (omega arith) (omega arith) (omega arith),
  λ a h. copy_from-outside n 0 dst src memory a (omega arith),
)
