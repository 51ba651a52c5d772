-- ===== src/Sha256/Fips/Words.antt =====
-- The words that `rotr32` turns, the words of a block, and the constants.
use dhruvaos.Base.{
  ℕ, ◌+◌, ◌-◌, ◌*◌, ◌/◌, ◌%◌, ◌^◌, ◌<◌, ◌≡◌, refl, ap, ap₂, bit_or, List, [], ◌∷◌, ◌++◌, arith,
  IsByte, IsWord, u8, u32, u64, ◌<<◌, ◌>>◌,
}
use native.Mathlib.Nat.{div-lt_iff_lt-mul, div-add-mod, mod-lt, mul-lt-mul_of_pos_right}
use dhruvaos.Base.Bits.{bit_or_comm, bit_or_fields}
use dhruvaos.Sha256.{rotr32, k_table, initial_h, load_word, at, length_bytes, out_bytes}
use dhruvaos.Sha256.Roots.{
  has_divisor, primes_from, square, cube, root, square_root_bits, cube_root_bits,
}
use dhruvaos.Sha256.Fips.{rotr, big_endian, all_big_endian, round_constants, initial_value}

pub round_constants_lem : round_constants ≡ k_table
unfolding round_constants primes_from has_divisor cube_root_bits root cube
round_constants_lem = refl

pub initial_value_lem : initial_value ≡ initial_h
unfolding initial_value primes_from has_divisor square_root_bits root square
initial_value_lem = refl

-- What a left shift cuts off.
shift_cut : (p q x : ℕ) → 0 < p → 0 < q → p * q ≡ 2 ^ 32 → u32 (x * q) ≡ x % p * q
shift_cut p q x hp hq e = omega (
  arith,
  mul-lt-mul_of_pos_right (mod-lt x hp) hq,
  ap (λ t. t * q) (div-add-mod x p),
  ap (λ t. x / p * t) e,
)

-- Turning a word in two halves.
pub rotr32-rotr :
    (n x : ℕ)
    → 0 < 2 ^ n
    → 0 < 2 ^ (32 - n)
    → 2 ^ n * 2 ^ (32 - n) ≡ 2 ^ 32
    → IsWord x
    → rotr32 x n ≡ rotr n x
unfolding rotr32 rotr
rotr32-rotr n x hp hq e h =
    let p = 2 ^ n in
    let q = 2 ^ (32 - n) in
    let high_half : x / p < q = (div-lt_iff_lt-mul hp).1 (omega arith) in
    rw
      (
        shift_cut p q x hp hq e,
        bit_or_comm (x / p) (x % p * q),
        bit_or_fields (32 - n) (x % p) (x / p) high_half,
      )
      (omega arith)

four_bytes :
    (a b c d : ℕ)
    → IsByte b
    → IsByte c
    → IsByte d
    → bit_or (bit_or (bit_or (a << 24) (b << 16)) (c << 8)) d
      ≡ a * 2 ^ 24 + b * 2 ^ 16 + c * 2 ^ 8 + d
four_bytes a b c d hb hc hd =
    let two : a * 2 ^ 24 + b * 2 ^ 16 ≡ (a * 256 + b) * 2 ^ 16 = omega arith in
    let three : (a * 256 + b) * 2 ^ 16 + c * 2 ^ 8 ≡ ((a * 256 + b) * 256 + c) * 2 ^ 8 =
      omega arith in
    rw
      (
        bit_or_fields 24 a (b << 16) (omega arith),
        two,
        bit_or_fields 16 (a * 256 + b) (c << 8) (omega arith),
        three,
        bit_or_fields 8 ((a * 256 + b) * 256 + c) d hd,
      )
      (omega arith)

-- A word of a block.
pub load_word-sum :
    (p : List ℕ) (i : ℕ)
    → IsByte (at p (i * 4 + 1))
    → IsByte (at p (i * 4 + 2))
    → IsByte (at p (i * 4 + 3))
    → load_word p i
      ≡ at p (i * 4) * 2 ^ 24
        + at p (i * 4 + 1) * 2 ^ 16
        + at p (i * 4 + 2) * 2 ^ 8
        + at p (i * 4 + 3)
unfolding load_word
load_word-sum p i hb hc hd =
    four_bytes (at p (i * 4)) (at p (i * 4 + 1)) (at p (i * 4 + 2)) (at p (i * 4 + 3)) hb hc hd

-- The length of the message, and the digest.
pub length_bytes-big_endian : (n : ℕ) → length_bytes (u64 (n * 8)) ≡ big_endian 8 (8 * n)
unfolding big_endian
length_bytes-big_endian n = ap₂ ◌∷◌ (omega arith) (
    ap₂ ◌∷◌ (omega arith) (
      ap₂ ◌∷◌ (omega arith) (
        ap₂ ◌∷◌ (omega arith) (
          ap₂ ◌∷◌ (omega arith)
            (ap₂ ◌∷◌ (omega arith) (ap₂ ◌∷◌ (omega arith) (ap₂ ◌∷◌ (omega arith) refl)))))))

pub out_bytes-big_endian : (h : List ℕ) → out_bytes h ≡ all_big_endian h
unfolding big_endian all_big_endian
out_bytes-big_endian [] = refl
out_bytes-big_endian (x ∷ xs) =
    ap₂ ◌++◌ (ap (λ t. u8 (x >> 24) ∷ u8 (x >> 16) ∷ u8 (x >> 8) ∷ t ∷ []) (omega arith))
      (out_bytes-big_endian xs)
