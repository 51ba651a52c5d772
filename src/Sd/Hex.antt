-- ===== src/Sd/Hex.antt =====
-- `u_hex32`: a word on the UART, as the characters that it puts there.
use native.Mathlib.Nat.{pow-suc, pow-succ', div-div-eq-div-mul, div-add-mod, mul_comm}
use dhruvaos.Base.{
  sym, ◌∙◌, ℕ, zero, suc, ◌+◌, ◌-◌, ◌*◌, ◌/◌, ◌%◌, ◌^◌, ◌<◌, ◌≡◌, refl, ap, List, [], ◌∷◌, length,
  get_or, bit_and, leb, if◌then◌else◌, arith, IsWord, All, Bool, ◌==◌, ==_iff, all_below_sound,
}
use dhruvaos.Base.Bits.{bit_and_low}

-- "0123456789ABCDEF"
abbrev pub hexd : List ℕ
hexd = 48 ∷ 49 ∷ 50 ∷ 51 ∷ 52 ∷ 53 ∷ 54 ∷ 55 ∷ 56 ∷ 57 ∷ 65 ∷ 66 ∷ 67 ∷ 68 ∷ 69 ∷ 70 ∷ []

-- `for (i = 7; i >= 0; i = i - 1)`, with `left` rounds to go.
unfoldable pub hex_digits : ℕ → ℕ → List ℕ
hex_digits zero v = []
hex_digits (suc i) v = get_or hexd (bit_and (v / 2 ^ (i * 4)) 0xF) 0 ∷ hex_digits i v

unfoldable pub u_hex32 : ℕ → List ℕ
u_hex32 v = hex_digits 8 v

-- The value of a digit 0 to 9 or A to F, and of a numeral of them.
abbrev pub digit_value : ℕ → ℕ
digit_value c = if leb c 57 then c - 48 else c - 55

unfoldable pub hex_value : List ℕ → ℕ
hex_value [] = 0
hex_value (c ∷ cs) = digit_value c * 16 ^ length cs + hex_value cs

-- A character of "0123456789ABCDEF".
abbrev pub IsHexDigit : ℕ → Type 0
IsHexDigit c = (digit_value c < 16) × (get_or hexd (digit_value c) 0 ≡ c)

has_value : ℕ → Bool
has_value d = digit_value (get_or hexd d 0) == d

digit_lem : (d : ℕ) → d < 16 → (digit_value (get_or hexd d 0) ≡ d) × IsHexDigit (get_or hexd d 0)
unfolding has_value
digit_lem d h =
    let value : digit_value (get_or hexd d 0) ≡ d =
      (==_iff (digit_value (get_or hexd d 0)) d).0 (all_below_sound has_value 16 d refl h) in
    (value, (omega (arith, value), ap (λ t. get_or hexd t 0) value))

-- A remainder by one digit more.
mod_digit : (p v : ℕ) → 0 < p → v % (16 * p) ≡ v / p % 16 * p + v % p
mod_digit p v pos =
    let quotient : v / (16 * p) ≡ v / p / 16 = sym (rw (div-div-eq-div-mul, mul_comm p 16) refl) in
    let digit : v / p ≡ v / p / 16 * 16 + v / p % 16 = omega arith in
    omega (
      arith,
      div-add-mod v (16 * p),
      ap (λ q. 16 * p * q) quotient,
      div-add-mod v p,
      ap (λ q. p * q) digit,
    )

power_lem : (n : ℕ) → 2 ^ (n * 4) ≡ 16 ^ n
power_lem zero = refl
power_lem (suc n) =
    let four : suc n * 4 ≡ suc (suc (suc (suc (n * 4)))) = omega arith in
    let m = n * 4 in
    rw four (
      omega (
        arith,
        power_lem n,
        pow-suc 16 n,
        pow-suc 2 m,
        pow-suc 2 (suc m),
        pow-suc 2 (suc (suc m)),
        pow-suc 2 (suc (suc (suc m))),
      ))

power_pos : (n : ℕ) → 0 < 16 ^ n
power_pos zero = omega arith
power_pos (suc n) = omega (arith, power_pos n, pow-suc 16 n)

hex_digits_lem :
    (n v : ℕ)
    → (length (hex_digits n v) ≡ n)
      × All IsHexDigit (hex_digits n v)
      × (hex_value (hex_digits n v) ≡ v % 16 ^ n)
unfolding hex_digits hex_value
hex_digits_lem zero v = (refl, tt, omega arith)
hex_digits_lem (suc n) v =
    let (size, digits, value) = hex_digits_lem n v in
    let digit : bit_and (v / 2 ^ (n * 4)) 0xF ≡ v / 16 ^ n % 16 =
      rw (← power_lem n) (bit_and_low 4 0xF (v / 2 ^ (n * 4)) refl) in
    let (here, is) = digit_lem (v / 16 ^ n % 16) (omega arith) in
    rw digit (
      ap suc size,
      (is, digits),
      rw (here, size, value)
          (sym (ap (λ p. v % p) (pow-succ' 16 n) ∙ mod_digit (16 ^ n) v (power_pos n))),
    )

-- For every 32-bit word, `u_hex32` prints eight characters of 0 to 9 and A to F that are the word's
-- hexadecimal numeral.
pub u_hex32_lem :
    (v : ℕ)
    → IsWord v
    → (length (u_hex32 v) ≡ 8) × All IsHexDigit (u_hex32 v) × (hex_value (u_hex32 v) ≡ v)
unfolding u_hex32
u_hex32_lem v word =
    let (size, digits, value) = hex_digits_lem 8 v in (size, digits, value ∙ omega arith)
