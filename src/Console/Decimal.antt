-- ===== src/Console/Decimal.antt =====
-- The digits that are printed are the number.
use native.Mathlib.Nat.{pow-suc}
use dhruvaos.Base.{
  ℕ, zero, suc, ◌+◌, ◌-◌, ◌*◌, ◌/◌, ◌%◌, ◌^◌, ◌<◌, ◌≤◌, ◌≡◌, refl, ap, sym, ◌∙◌, inl, inr, ◌⊎◌,
  some, List, [], ◌∷◌, ◌++◌, append-nil, append_assoc, length, length-append, get_or, arith, ltb,
  ◌==◌, if◌then◌else◌, Bool-cases, true, u64, All, All-append,
}
use dhruvaos.Console.{collect, print_back, put_unsigned, put_i64}

-- The number that decimal digits stand for, behind `n` that were read before.
unfoldable pub read_decimal : ℕ → List ℕ → ℕ
read_decimal n [] = n
read_decimal n (c ∷ cs) = read_decimal (n * 10 + (c - 48)) cs

read_decimal-append :
    (n : ℕ) (xs : List ℕ) (c : ℕ)
    → read_decimal n (xs ++ c ∷ []) ≡ read_decimal n xs * 10 + (c - 48)
unfolding read_decimal
read_decimal-append n [] c = refl
read_decimal-append n (x ∷ xs) c = read_decimal-append (n * 10 + (x - 48)) xs c

-- The digits of `uv`, the highest first.
unfoldable decimal : ℕ → ℕ → List ℕ
decimal zero uv = []
decimal (suc fuel) uv =
    let rest = decimal fuel (uv / 10) ++ (48 + uv % 10) ∷ [] in if uv == 0 then [] else rest

read_decimal-decimal : (fuel uv : ℕ) → uv < 10 ^ fuel → read_decimal 0 (decimal fuel uv) ≡ uv
unfolding decimal read_decimal
read_decimal-decimal zero uv h = omega arith
read_decimal-decimal (suc fuel) uv h = elim (Bool-cases (uv == 0)) [
  | inl e ↦ rw e (ground (arith, e))
  | inr e ↦
      let higher = read_decimal-decimal fuel (uv / 10) (omega (arith, pow-suc 10 fuel)) in
      rw e (omega (arith, higher, read_decimal-append 0 (decimal fuel (uv / 10)) (48 + uv % 10)))
]

get_or-append : (xs : List ℕ) (c i : ℕ) → i < length xs → get_or (xs ++ c ∷ []) i 0 ≡ get_or xs i 0
get_or-append [] c i h = absurd (omega arith)
get_or-append (x ∷ xs) c zero h = refl
get_or-append (x ∷ xs) c (suc i) h = get_or-append xs c i (omega arith)

get_or-append_end : (xs : List ℕ) (c : ℕ) → get_or (xs ++ c ∷ []) (length xs) 0 ≡ c
get_or-append_end [] c = refl
get_or-append_end (x ∷ xs) c = get_or-append_end xs c

print_back-append :
    (n : ℕ) (xs : List ℕ) (c : ℕ) → n ≤ length xs → print_back n (xs ++ c ∷ []) ≡ print_back n xs
unfolding print_back
print_back-append zero xs c h = refl
print_back-append (suc n) xs c h =
    rw (get_or-append xs c n (omega arith), print_back-append n xs c (omega arith)) refl

print_back-snoc :
    (xs : List ℕ) (c : ℕ)
    → print_back (length (xs ++ c ∷ [])) (xs ++ c ∷ []) ≡ c ∷ print_back (length xs) xs
unfolding print_back
print_back-snoc xs c =
    let size : length (xs ++ c ∷ []) ≡ suc (length xs) = omega (arith, length-append xs (c ∷ [])) in
    rw (size, get_or-append_end xs c, print_back-append (length xs) xs c (omega arith)) refl

-- The loop over the digits ends within its fuel, and prints the number's digits before those that it
-- began with.
record Collected (fuel uv : ℕ) (digits : List ℕ) : Type 0 where
  all : List ℕ
  result : collect fuel uv digits ≡ some all
  printed : print_back (length all) all ≡ decimal fuel uv ++ print_back (length digits) digits

collect-Collected : (fuel uv : ℕ) (digits : List ℕ) → uv < 10 ^ fuel → Collected fuel uv digits
unfolding collect decimal
collect-Collected zero uv digits h =
    let e : (uv == 0) ≡ true = ground arith in
    record { all = digits; result = rw e refl; printed = refl }
collect-Collected (suc fuel) uv digits h = elim (Bool-cases (uv == 0)) [
  | inl e ↦ record { all = digits; result = rw e refl; printed = rw e refl }
  | inr e ↦
      let c = 48 + uv % 10 in
      let rest =
        collect-Collected fuel (uv / 10) (digits ++ c ∷ []) (omega (arith, pow-suc 10 fuel)) in
      record {
        all = rest.all;
        result = rw e rest.result;
        printed = rw e (
            rest.printed
            ∙ (ap (λ t. decimal fuel (uv / 10) ++ t) (print_back-snoc digits c)
                ∙ sym (
                    append_assoc (decimal fuel (uv / 10)) (c ∷ [])
                      (print_back (length digits) digits))));
      }
]

-- A character of a numeral.
abbrev pub IsDigit : ℕ → Type 0
IsDigit c = (48 ≤ c) × (c ≤ 57)

decimal-IsDigit : (fuel uv : ℕ) → All IsDigit (decimal fuel uv)
unfolding decimal
decimal-IsDigit zero uv = tt
decimal-IsDigit (suc fuel) uv = elim (Bool-cases (uv == 0)) [
  | inl e ↦ rw e tt
  | inr e ↦ rw e (
      All-append IsDigit (decimal fuel (uv / 10)) ((48 + uv % 10) ∷ [])
        (decimal-IsDigit fuel (uv / 10)) ((omega arith, omega arith), tt))
]

length-decimal : (fuel k uv : ℕ) → uv < 10 ^ k → length (decimal fuel uv) ≤ k
unfolding decimal
length-decimal zero k uv h = omega arith
length-decimal (suc fuel) zero uv h = let e : (uv == 0) ≡ true = ground arith in rw e (omega arith)
length-decimal (suc fuel) (suc k) uv h = elim (Bool-cases (uv == 0)) [
  | inl e ↦ rw e (omega arith)
  | inr e ↦
      let shorter = length-decimal fuel k (uv / 10) (omega (arith, pow-suc 10 k)) in
      rw e (omega (arith, shorter, length-append (decimal fuel (uv / 10)) ((48 + uv % 10) ∷ [])))
]

-- What is printed for `uv`: its decimal digits, 20 at most.
pub record Printed (uv : ℕ) : Type 0 where
  pub out : List ℕ
  pub result : put_unsigned uv ≡ some out
  pub value : read_decimal 0 out ≡ uv
  pub digits : All IsDigit out
  pub short : length out ≤ 20

pub put_unsigned-Printed : (uv : ℕ) → uv < 2 ^ 64 → Printed uv
unfolding put_unsigned
put_unsigned-Printed uv h = elim (Bool-cases (uv == 0)) [
  | inl e ↦ record {
    out = 48 ∷ [];
    result = rw e refl;
    value = unfold read_decimal in ground (arith, e);
    digits = ((omega arith, omega arith), tt);
    short = omega arith;
  }
  | inr e ↦
      let got = collect-Collected 24 uv [] (omega arith) in
      let same : print_back (length got.all) got.all ≡ decimal 24 uv =
        got.printed ∙ (unfold print_back in append-nil (decimal 24 uv)) in
      record {
        out = print_back (length got.all) got.all;
        result = rw (e, got.result) refl;
        value = rw same (read_decimal-decimal 24 uv (omega arith));
        digits = rw same (decimal-IsDigit 24 uv);
        short = rw same (length-decimal 24 20 uv (omega arith));
      }
]

-- For every 64-bit `v`, `dhruva_dprintf_put_i64` ends within 24 digits and prints at most 20: when
-- `v` is not negative, a decimal numeral of `v`, and otherwise a minus sign and a numeral of 2 ^ 64
-- - `v`.
pub put_i64_lem :
    (v : ℕ)
    → v < 2 ^ 64
    → ((v < 2 ^ 63)
        × (out : List ℕ) × (put_i64 v ≡ some out)
        × (read_decimal 0 out ≡ v)
        × All IsDigit out
        × (length out ≤ 20))
      ⊎ ((2 ^ 63 ≤ v)
          × (out : List ℕ) × (put_i64 v ≡ some (45 ∷ out))
          × (read_decimal 0 out + v ≡ 2 ^ 64)
          × All IsDigit out
          × (length out ≤ 20))
unfolding put_i64
put_i64_lem v h = elim (Bool-cases (ltb v (2 ^ 63))) [
  | inl e ↦
      let got = put_unsigned-Printed v h in
      inl (ground (arith, e), got.out, rw e got.result, got.value, got.digits, got.short)
  | inr e ↦
      let got = put_unsigned-Printed (u64 (2 ^ 64 - v)) (omega arith) in
      let big : 2 ^ 63 ≤ v = ground (arith, e) in
      inr (big, got.out, rw (e, got.result) refl, omega (arith, got.value), got.digits, got.short)
]
