-- ===== src/Crc32/Step.antt =====
-- Each step of the CRC is a bijection on 32-bit words.
use native.Mathlib.Decide.{ℕ_discrete}
use dhruvaos.Base.{ℕ, zero, suc, ◌/◌, ◌%◌, ◌^◌, ◌≡◌, ap, bit_xor, arith, IsWord}
use dhruvaos.Base.Bits.{bit_and_one, bit_xor-lt, bit_xor-div, bit_xor_right_cancel}
use dhruvaos.Crc32.{polynomial, crc_bit, crc_bits}

crc_bit-even : (c : ℕ) → c % 2 ≡ 0 → crc_bit c ≡ c / 2
unfolding crc_bit
crc_bit-even c h = ground (arith, bit_and_one c)

crc_bit-odd : (c : ℕ) → c % 2 ≡ 1 → crc_bit c ≡ bit_xor (c / 2) polynomial
unfolding crc_bit
crc_bit-odd c h = ground (arith, bit_and_one c)

pub crc_bit-IsWord : (c : ℕ) → IsWord c → IsWord (crc_bit c)
unfolding crc_bit
crc_bit-IsWord c h = ground (arith, bit_xor-lt 32 (c / 2) polynomial)

-- The top bit of the result is the bit that was shifted out.
crc_bit-top : (c : ℕ) → IsWord c → crc_bit c / 2 ^ 31 ≡ c % 2
crc_bit-top c h = elim (ℕ_discrete (c % 2) 0) [
  | yes e ↦ omega (arith, crc_bit-even c e)
  | no e ↦
      let small : c / 2 / 2 ^ 31 ≡ 0 = omega arith in
      let odd : c % 2 ≡ 1 = omega arith in
      rw (crc_bit-odd c odd, bit_xor-div 31 (c / 2) polynomial, small, odd)
]

pub crc_bit_injective : (a b : ℕ) → IsWord a → IsWord b → crc_bit a ≡ crc_bit b → a ≡ b
crc_bit_injective a b ha hb h =
    let parity : a % 2 ≡ b % 2 =
      omega (arith, crc_bit-top a ha, crc_bit-top b hb, ap (λ (t : ℕ). t / 2 ^ 31) h) in
    elim (ℕ_discrete (a % 2) 0) [
      | yes e ↦ omega (arith, crc_bit-even a e, crc_bit-even b (omega arith))
      | no e ↦
          let odd : a % 2 ≡ 1 = omega arith in
          let odd' : b % 2 ≡ 1 = omega arith in
          let halves : a / 2 ≡ b / 2 =
            bit_xor_right_cancel (a / 2) (b / 2) polynomial
              (cc (crc_bit-odd a odd, crc_bit-odd b odd')) in
          omega arith
    ]

pub crc_bits-IsWord : (n c : ℕ) → IsWord c → IsWord (crc_bits n c)
unfolding crc_bits
crc_bits-IsWord zero c h = h
crc_bits-IsWord (suc n) c h = crc_bits-IsWord n (crc_bit c) (crc_bit-IsWord c h)

pub crc_bits_injective : (n a b : ℕ) → IsWord a → IsWord b → crc_bits n a ≡ crc_bits n b → a ≡ b
unfolding crc_bits
crc_bits_injective zero a b ha hb h = h
crc_bits_injective (suc n) a b ha hb h =
    crc_bit_injective a b ha hb
      (crc_bits_injective n (crc_bit a) (crc_bit b) (crc_bit-IsWord a ha) (crc_bit-IsWord b hb) h)
