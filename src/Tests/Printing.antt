-- ===== src/Tests/Printing.antt =====
-- Tests of the panic output, `strlen` and `memcpy`.
use dhruvaos.Base.{
  ℕ, ◌≡◌, ◌<◌, ◌≤◌, ◌⊎◌, inr, refl, ◌+◌, ◌-◌, ◌^◌, List, [], ◌∷◌, ◌++◌, length, get_or, some, arith,
  All,
}
use dhruvaos.Console.{
  Arg, put_i64, put_unsigned, collect, print_back, dprintf, format, directive, put_number, skip_l,
}
use dhruvaos.Console.Decimal.{read_decimal, IsDigit, put_i64_lem}
use dhruvaos.Memory.{strlen, strlen_from, memcpy, memcpy_lem}

-- -120 is printed as its sign and its digits.
minus_120 : put_i64 (2 ^ 64 - 120) ≡ some (45 ∷ 49 ∷ 50 ∷ 48 ∷ [])
unfolding put_i64 put_unsigned collect print_back
minus_120 = refl

put_i64_lem_example :
    ((2 ^ 64 - 120 < 2 ^ 63)
      × (out : List ℕ) × (put_i64 (2 ^ 64 - 120) ≡ some out)
      × (read_decimal 0 out ≡ 2 ^ 64 - 120)
      × All IsDigit out
      × (length out ≤ 20))
    ⊎ ((2 ^ 63 ≤ 2 ^ 64 - 120)
        × (out : List ℕ) × (put_i64 (2 ^ 64 - 120) ≡ some (45 ∷ out))
        × (read_decimal 0 out + (2 ^ 64 - 120) ≡ 2 ^ 64)
        × All IsDigit out
        × (length out ≤ 20))
put_i64_lem_example = put_i64_lem (2 ^ 64 - 120) (omega arith)

abbrev failed_text : List ℕ
failed_text = 102 ∷ 97 ∷ 105 ∷ 108 ∷ 101 ∷ 100 ∷ 58 ∷ 32 ∷ []

abbrev reason_text : List ℕ
reason_text = 110 ∷ 111 ∷ []

-- `%lld` between two texts.
number_between :
    dprintf (120 ∷ 61 ∷ 37 ∷ 108 ∷ 108 ∷ 100 ∷ 33 ∷ []) (Arg.number 42 ∷ [])
    ≡ some (120 ∷ 61 ∷ 52 ∷ 50 ∷ 33 ∷ [])
unfolding dprintf format directive put_number skip_l put_i64 put_unsigned collect print_back
number_between = refl

-- The string at address 100, and zeros elsewhere.
abbrev with_text : ℕ → ℕ
with_text a = get_or (reason_text ++ 0 ∷ []) (a - 100) 0

text_length : strlen 5 with_text 100 ≡ some 2
unfolding strlen strlen_from
text_length = refl

memcpy_lem_example :
    ((j : ℕ) → j < 3 → memcpy 3 200 100 with_text (200 + j) ≡ with_text (100 + j))
    × ((a : ℕ) → (a < 200) ⊎ (203 ≤ a) → memcpy 3 200 100 with_text a ≡ with_text a)
memcpy_lem_example = memcpy_lem 3 200 100 with_text (inr (omega arith))
