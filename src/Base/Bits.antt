-- ===== src/Base/Bits.antt =====
-- The laws of `^`, `|` and `&` on words that the checksums rest on, for every width: the native
-- operations stand for a recursion on binary digits, of which each law takes one step.
use Prim.Native.Nat.{
  ℕ, zero, suc, ◌+◌, ◌-◌, ◌*◌, ◌/◌, ◌%◌, ◌^◌, ◌≤◌, ◌<◌, max, digits, bitwise, differ, bit_and,
  bit_or, bit_xor, min, bit_and-bitwise, bit_or-bitwise, bit_xor-bitwise,
}
use mathlib.Core.Path.{◌≡◌, refl, ap, sym, ◌∙◌}
use native.Mathlib.Nat.{pow-suc, pow-succ', div-div-eq-div-mul}
use native.Mathlib.Omega.{arith}

-- One more unit of fuel, and then any number, changes nothing once the fuel covers the first word.
module _ (z : ℕ → ℕ) (f : ℕ → ℕ → ℕ) where
  more_fuel : (a b n : ℕ) → a ≤ n → digits z f (suc n) a b ≡ digits z f n a b
  more_fuel zero b zero h = refl
  more_fuel zero b (suc n) h = refl
  more_fuel (suc a) b zero h = absurd (omega arith)
  more_fuel (suc a) b (suc n) h =
      ap (λ t. t * 2 + f (suc a % 2) (b % 2)) (more_fuel (suc a / 2) (b / 2) n (omega arith))

  spare_fuel : (k a b : ℕ) → digits z f (a + k) a b ≡ digits z f a a b
  spare_fuel zero a b = let e : a + 0 ≡ a = omega arith in rw e refl
  spare_fuel (suc k) a b =
      let e : a + suc k ≡ suc (a + k) = omega arith in
      rw e (more_fuel a b (a + k) (omega arith) ∙ spare_fuel k a b)

  -- The lowest digit split off; `empty` says that `z` agrees where the first word has no digit.
  split_digit :
      (a b : ℕ)
      → (empty : z b ≡ z (b / 2) * 2 + f 0 (b % 2))
      → bitwise z f a b ≡ bitwise z f (a / 2) (b / 2) * 2 + f (a % 2) (b % 2)
  split_digit zero b empty = empty
  split_digit (suc a) b empty =
      let half = suc a / 2 in
      let exact : half + (a - half) ≡ a = omega arith in
      ap (λ t. t * 2 + f (suc a % 2) (b % 2))
        (ap (λ n. digits z f n half (b / 2)) (sym exact) ∙ spare_fuel (a - half) half (b / 2))

pub bit_or_step : (a b : ℕ) → bit_or a b ≡ bit_or (a / 2) (b / 2) * 2 + max (a % 2) (b % 2)
bit_or_step a b = omega (
  arith,
  bit_or-bitwise a b,
  bit_or-bitwise (a / 2) (b / 2),
  split_digit (λ y. y) max a b (omega arith),
)

differ_bit : (x y : ℕ) → x < 2 → y < 2 → differ x y ≡ (x + y) % 2
differ_bit zero y p q = omega arith
differ_bit (suc zero) zero p q = refl
differ_bit (suc zero) (suc zero) p q = refl
differ_bit (suc zero) (suc (suc y)) p q = absurd (omega arith)
differ_bit (suc (suc x)) y p q = absurd (omega arith)

pub bit_xor_step : (a b : ℕ) → bit_xor a b ≡ bit_xor (a / 2) (b / 2) * 2 + (a + b) % 2
bit_xor_step a b = omega (
  arith,
  bit_xor-bitwise a b,
  bit_xor-bitwise (a / 2) (b / 2),
  split_digit (λ y. y) differ a b (omega (arith, differ_bit 0 (b % 2) (omega arith) (omega arith))),
  differ_bit (a % 2) (b % 2) (omega arith) (omega arith),
)

bit_xor_cancel_fuel : (n a b : ℕ) → a ≤ n → b ≤ n → bit_xor (bit_xor a b) b ≡ a
bit_xor_cancel_fuel zero a b p q =
    let e : a ≡ 0 = omega arith in let f : b ≡ 0 = omega arith in rw (e, f)
bit_xor_cancel_fuel (suc n) a b p q = ground (
  arith,
  bit_xor_step a b,
  bit_xor_step (bit_xor a b) b,
  bit_xor_cancel_fuel n (a / 2) (b / 2) (omega arith) (omega arith),
)

-- `^` with the same word twice changes nothing.
pub bit_xor_cancel : (a b : ℕ) → bit_xor (bit_xor a b) b ≡ a
bit_xor_cancel a b = bit_xor_cancel_fuel (a + b) a b (omega arith) (omega arith)

pub bit_xor_right_cancel : (a b c : ℕ) → bit_xor a c ≡ bit_xor b c → a ≡ b
bit_xor_right_cancel a b c h = cc (bit_xor_cancel a c, bit_xor_cancel b c)

bit_xor_comm_fuel : (n a b : ℕ) → a ≤ n → b ≤ n → bit_xor a b ≡ bit_xor b a
bit_xor_comm_fuel zero a b p q =
    let e : a ≡ 0 = omega arith in let f : b ≡ 0 = omega arith in rw (e, f)
bit_xor_comm_fuel (suc n) a b p q = omega (
  arith,
  bit_xor_step a b,
  bit_xor_step b a,
  bit_xor_comm_fuel n (a / 2) (b / 2) (omega arith) (omega arith),
)

pub bit_xor_comm : (a b : ℕ) → bit_xor a b ≡ bit_xor b a
bit_xor_comm a b = bit_xor_comm_fuel (a + b) a b (omega arith) (omega arith)

pub bit_xor_left_cancel : (a b c : ℕ) → bit_xor c a ≡ bit_xor c b → a ≡ b
bit_xor_left_cancel a b c h = bit_xor_right_cancel a b c (cc (bit_xor_comm a c, bit_xor_comm b c))

div-two-pow-suc : (k a : ℕ) → a / 2 ^ suc k ≡ a / 2 / 2 ^ k
div-two-pow-suc k a = rw (div-div-eq-div-mul, ← pow-succ')

-- `>>` distributes over `^`.
pub bit_xor-div : (k a b : ℕ) → bit_xor a b / 2 ^ k ≡ bit_xor (a / 2 ^ k) (b / 2 ^ k)
bit_xor-div zero a b =
    let e : a / 1 ≡ a = omega arith in let f : b / 1 ≡ b = omega arith in rw (e, f) (omega arith)
bit_xor-div (suc k) a b =
    let half : bit_xor a b / 2 ≡ bit_xor (a / 2) (b / 2) = omega (arith, bit_xor_step a b) in
    rw (div-two-pow-suc k a, div-two-pow-suc k b, div-two-pow-suc k (bit_xor a b), half)
      (bit_xor-div k (a / 2) (b / 2))

pub bit_xor-lt : (k a b : ℕ) → a < 2 ^ k → b < 2 ^ k → bit_xor a b < 2 ^ k
bit_xor-lt zero a b p q =
    let e : a ≡ 0 = omega arith in let f : b ≡ 0 = omega arith in rw (e, f) (omega arith)
bit_xor-lt (suc k) a b p q = omega (
  arith,
  bit_xor_step a b,
  pow-suc 2 k,
  bit_xor-lt k (a / 2) (b / 2) (omega (arith, pow-suc 2 k)) (omega (arith, pow-suc 2 k)),
)

bit_or_zero_fuel : (n a : ℕ) → a ≤ n → bit_or a 0 ≡ a
bit_or_zero_fuel zero a p = let e : a ≡ 0 = omega arith in rw e
bit_or_zero_fuel (suc n) a p =
    omega (arith, bit_or_step a 0, bit_or_zero_fuel n (a / 2) (omega arith))

pub bit_or_zero : (a : ℕ) → bit_or a 0 ≡ a
bit_or_zero a = bit_or_zero_fuel a a (omega arith)

double_shift : (k hi : ℕ) → 2 * (hi * 2 ^ k) ≡ hi * 2 ^ suc k
double_shift k hi = omega (arith, ap (λ w. hi * w) (pow-suc 2 k))

-- A word that is shifted past the width of another one is joined to it by adding.
pub bit_or_fields : (k hi lo : ℕ) → lo < 2 ^ k → bit_or (hi * 2 ^ k) lo ≡ hi * 2 ^ k + lo
bit_or_fields zero hi lo small =
    let none_low : lo ≡ 0 = omega arith in
    let same : hi * 1 ≡ hi = omega arith in
    rw (none_low, same) (omega (arith, bit_or_zero_fuel hi hi (omega arith)))
bit_or_fields (suc k) hi lo small =
    let halves = bit_or_fields k hi (lo / 2) (omega (arith, pow-suc 2 k)) in
    ground (arith, halves, double_shift k hi, bit_or_step (hi * 2 ^ suc k) lo)

bit_or_comm_fuel : (n a b : ℕ) → a ≤ n → b ≤ n → bit_or a b ≡ bit_or b a
bit_or_comm_fuel zero a b p q =
    let e : a ≡ 0 = omega arith in let f : b ≡ 0 = omega arith in rw (e, f)
bit_or_comm_fuel (suc n) a b p q = omega (
  arith,
  bit_or_step a b,
  bit_or_step b a,
  bit_or_comm_fuel n (a / 2) (b / 2) (omega arith) (omega arith),
)

pub bit_or_comm : (a b : ℕ) → bit_or a b ≡ bit_or b a
bit_or_comm a b = bit_or_comm_fuel (a + b) a b (omega arith) (omega arith)

pub bit_and_step : (a b : ℕ) → bit_and a b ≡ bit_and (a / 2) (b / 2) * 2 + min (a % 2) (b % 2)
bit_and_step a b = omega (
  arith,
  bit_and-bitwise a b,
  bit_and-bitwise (a / 2) (b / 2),
  split_digit (λ y. 0) min a b (omega arith),
)

bit_and_zero_fuel : (n a : ℕ) → a ≤ n → bit_and a 0 ≡ 0
bit_and_zero_fuel zero a p = let e : a ≡ 0 = omega arith in rw e
bit_and_zero_fuel (suc n) a p =
    omega (arith, bit_and_step a 0, bit_and_zero_fuel n (a / 2) (omega arith))

-- The lowest bit.
pub bit_and_one : (a : ℕ) → bit_and a 1 ≡ a % 2
bit_and_one a = omega (arith, bit_and_step a 1, bit_and_zero_fuel (a / 2) (a / 2) (omega arith))

mod-two-pow-suc : (w a : ℕ) → a % 2 ^ suc w ≡ a / 2 % 2 ^ w * 2 + a % 2
mod-two-pow-suc w a = omega (
  arith,
  ap (λ t. 2 ^ suc w * t) (div-two-pow-suc w a),
  ap (λ t. t * (a / 2 / 2 ^ w)) (pow-suc 2 w),
)

-- A mask of low bits, all of them set, is a remainder.
pub bit_and_low : (w mask a : ℕ) → mask + 1 ≡ 2 ^ w → bit_and a mask ≡ a % 2 ^ w
bit_and_low zero mask a e =
    let none_set : mask ≡ 0 = omega arith in
    rw none_set (omega (arith, bit_and_zero_fuel a a (omega arith)))
bit_and_low (suc w) mask a e = omega (
  arith,
  pow-suc 2 w,
  bit_and_step a mask,
  mod-two-pow-suc w a,
  bit_and_low w (mask / 2) (a / 2) (omega (arith, pow-suc 2 w)),
)

half_shift : (k hi : ℕ) → hi * 2 ^ suc k / 2 ≡ hi * 2 ^ k
half_shift k hi = omega (arith, double_shift k hi)

-- A mask with its low bits clear takes them away.
pub bit_and_high : (k mask a : ℕ) → bit_and a (mask * 2 ^ k) ≡ bit_and (a / 2 ^ k) mask * 2 ^ k
bit_and_high zero mask a =
    let e : a / 1 ≡ a = omega arith in
    let f : mask * 1 ≡ mask = omega arith in rw (e, f) (omega arith)
bit_and_high (suc k) mask a = omega (
  arith,
  div-two-pow-suc k a,
  double_shift k mask,
  double_shift k (bit_and (a / 2 / 2 ^ k) mask),
  ap (λ t. bit_and t mask * 2 ^ suc k) (div-two-pow-suc k a),
  bit_and_step a (mask * 2 ^ suc k),
  ap (λ t. bit_and (a / 2) t) (half_shift k mask),
  bit_and_high k mask (a / 2),
)
