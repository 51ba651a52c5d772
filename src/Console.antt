-- ===== src/Console.antt =====
-- The panic output of boot/rpi1/runtime_stubs.c: numbers in decimal, and the small `dprintf`. What is
-- sent to the UART is the list of the characters, and a C string the list before its terminator.
pub mod Decimal
pub mod Format
use dhruvaos.Base.{
  ℕ, zero, suc, ◌+◌, ◌-◌, ◌/◌, ◌%◌, ◌^◌, Bool, Option, none, some, List, [], ◌∷◌, ◌++◌, ◌||◌,
  length, get_or, leb, ltb, ◌==◌, if◌then◌else◌, u64,
}

-- `while (uv > 0)`, on fuel: `digits[n]` is the element behind the `n` that are there.
unfoldable pub collect : ℕ → ℕ → List ℕ → Option (List ℕ)
collect zero uv digits = if uv == 0 then some digits else none
collect (suc fuel) uv digits =
    let rest = collect fuel (uv / 10) (digits ++ (48 + uv % 10) ∷ []) in
    if uv == 0 then some digits else rest

-- `while (n > 0)`
unfoldable pub print_back : ℕ → List ℕ → List ℕ
print_back zero digits = []
print_back (suc n) digits = get_or digits n 0 ∷ print_back n digits

-- From `uv == 0` on, with one round for each of the 24 elements of `digits`.
unfoldable pub put_unsigned : ℕ → Option (List ℕ)
put_unsigned uv = if uv == 0 then some (48 ∷ []) else elim (collect 24 uv []) [
  | none ↦ none
  | some digits ↦ some (print_back (length digits) digits)
]

-- `dhruva_dprintf_put_i64`, for the 64 bits of `v`.
unfoldable pub put_i64 : ℕ → Option (List ℕ)
put_i64 v =
    if ltb v (2 ^ 63)
    then put_unsigned v
    else elim (put_unsigned (u64 (2 ^ 64 - v))) [ none ↦ none | some out ↦ some (45 ∷ out) ]

-- A variadic argument.
pub data Arg : Type 0 where
  string : List ℕ → Arg
  number : ℕ → Arg

-- `while (*fmt == 'l')`
unfoldable pub skip_l : List ℕ → List ℕ
skip_l [] = []
skip_l (c ∷ fmt) = let rest = skip_l fmt in if c == 108 then rest else c ∷ fmt

-- `%d`, `%ld` and `%lld`, from the letter after the `%` and the `l`s on: what is printed, and the
-- format and the arguments that are left.
unfoldable pub put_number : List ℕ → List Arg → Option (List ℕ × List ℕ × List Arg)
put_number (d ∷ fmt) (Arg.number v ∷ args) = elim (put_i64 v) [
  | none ↦ none
  | some out ↦ some (out, fmt, args)
]
put_number (d ∷ fmt) (Arg.string s ∷ args) = none
put_number (d ∷ fmt) [] = none
put_number [] args = none

unfoldable pub put_string : List ℕ → List Arg → Option (List ℕ × List ℕ × List Arg)
put_string fmt (Arg.string s ∷ args) = some (s, fmt, args)
put_string fmt (Arg.number v ∷ args) = none
put_string fmt [] = none

-- The letter `c` after a `%`; `none` where C reads an argument that is not there or of another type,
-- or goes on behind the terminator.
unfoldable pub directive : ℕ → List ℕ → List Arg → Option (List ℕ × List ℕ × List Arg)
directive c fmt args =
    if c == 115
    then put_string fmt args
    else if (c == 100) || (c == 108)
    then put_number (skip_l (c ∷ fmt)) args
    else some (37 ∷ c ∷ [], fmt, args)

abbrev pub put_before : List ℕ → Option (List ℕ) → Option (List ℕ)
put_before out none = none
put_before out (some rest) = some (out ++ rest)

-- The loop of `dprintf`, on fuel for the characters of `fmt`.
unfoldable pub format : ℕ → List ℕ → List Arg → Option (List ℕ)
format fuel [] args = some []
format zero (c ∷ fmt) args = none
format (suc fuel) (c ∷ []) args = some (c ∷ [])
format (suc fuel) (c ∷ d ∷ fmt) args =
    let plain = put_before (c ∷ []) (format fuel (d ∷ fmt) args) in
    if c == 37
    then elim (directive d fmt args) [
      | none ↦ none
      | some (out, fmt', args') ↦ put_before out (format fuel fmt' args')
    ]
    else plain

unfoldable pub dprintf : List ℕ → List Arg → Option (List ℕ)
dprintf fmt args = format (length fmt) fmt args
