-- ===== src/Uart/Numbers.antt =====
-- Numbers on a UART: what is sent is what the functions of Console give as text.
use dhruvaos.Base.{
  ℕ, zero, suc, ◌+◌, ◌-◌, ◌*◌, ◌/◌, ◌%◌, ◌^◌, ◌≡◌, refl, arith, Option, none, some, List, [], ◌∷◌,
  ◌++◌, length, get_or, ltb, ◌==◌, u64, IsByte, All, All-append, All-get_or, Bool-cases, inl, inr,
  bit_and,
}
use mathlib.Core.Path.{subst}
use mathlib.Core.Option.{some_inj, none-ne-some}
use dhruvaos.Base.Action.{Action, ◌>>◌, diverge}
use dhruvaos.Console.{collect, print_back, put_unsigned}
use dhruvaos.Console
use dhruvaos.Sd.Hex.{hexd, hex_digits}
use dhruvaos.Uart.{Bus, send_back, put_u64, put_i64, put_hex}
use dhruvaos.Uart.Prints.{Prints, Prints-pure, Prints-then}

collect-IsByte :
    (fuel uv : ℕ) (digits all : List ℕ)
    → All IsByte digits
    → collect fuel uv digits ≡ some all
    → All IsByte all
unfolding collect
collect-IsByte zero uv digits all h e = elim (Bool-cases (uv == 0)) [
  | inl z ↦ subst (All IsByte) (some_inj.0 (rw z at e)) h
  | inr z ↦ absurd (none-ne-some _ (rw z at e))
]
collect-IsByte (suc fuel) uv digits all h e = elim (Bool-cases (uv == 0)) [
  | inl z ↦ subst (All IsByte) (some_inj.0 (rw z at e)) h
  | inr z ↦
      collect-IsByte fuel (uv / 10) (digits ++ (48 + uv % 10) ∷ []) all
        (All-append IsByte digits ((48 + uv % 10) ∷ []) h (omega arith, tt)) (rw z at e)
]

hexd-IsByte : All IsByte hexd
hexd-IsByte = ground arith

module _ {dr : ℕ} {putc : ℕ → Action Bus (Unit {0})}
    (sends : (c : ℕ) → IsByte c → Prints dr (putc c) (c ∷ [])) where
  send_back-Prints :
      (n : ℕ) (digits : List ℕ)
      → All IsByte digits
      → Prints dr (send_back putc n digits) (print_back n digits)
  unfolding send_back print_back
  send_back-Prints zero digits h = Prints-pure dr
  send_back-Prints (suc n) digits h =
      let c = get_or digits n 0 in
      Prints-then dr (putc c) (send_back putc n digits) (c ∷ []) (print_back n digits)
        (sends c (All-get_or IsByte digits n 0 h (omega arith))) (send_back-Prints n digits h)

  -- What is sent, when there are digits.
  digits-Prints :
      (got : Option (List ℕ)) (out : List ℕ)
      → ((all : List ℕ) → got ≡ some all → All IsByte all)
      → ◌≡◌ {A = Option (List ℕ)}
          (elim got [ none ↦ none | some digits ↦ some (print_back (length digits) digits) ])
          (some out)
      → Prints dr
          (elim got [ none ↦ diverge | some digits ↦ send_back putc (length digits) digits ])
          out
  digits-Prints none out bytes e = absurd (none-ne-some _ e)
  digits-Prints (some digits) out bytes e =
      subst (Prints dr (send_back putc (length digits) digits)) (some_inj.0 e)
        (send_back-Prints (length digits) digits (bytes digits refl))

  pub put_u64-Prints :
      (v : ℕ) (out : List ℕ) → put_unsigned v ≡ some out → Prints dr (put_u64 putc v) out
  unfolding put_u64 put_unsigned
  put_u64-Prints v out e = elim (Bool-cases (v == 0)) [
    | inl z ↦ rw z (subst (Prints dr (putc 48)) (some_inj.0 (rw z at e)) (sends 48 (omega arith)))
    | inr z ↦
        rw z
          (digits-Prints (collect 24 v []) out (λ all. collect-IsByte 24 v [] all tt) (rw z at e))
  ]

  -- A minus sign before a number.
  negative-Prints :
      (v : ℕ) (got : Option (List ℕ)) (out : List ℕ)
      → put_unsigned v ≡ got
      → ◌≡◌ {A = Option (List ℕ)} (elim got [ none ↦ none | some out ↦ some (45 ∷ out) ]) (some out)
      → Prints dr (putc 45 >> put_u64 putc v) out
  negative-Prints v none out same e = absurd (none-ne-some _ e)
  negative-Prints v (some digits) out same e =
      subst (Prints dr (putc 45 >> put_u64 putc v)) (some_inj.0 e) (
        Prints-then dr (putc 45) (put_u64 putc v) (45 ∷ []) digits (sends 45 (omega arith))
          (put_u64-Prints v digits same))

  pub put_i64-Prints :
      (v : ℕ) (out : List ℕ) → Console.put_i64 v ≡ some out → Prints dr (put_i64 putc v) out
  unfolding put_i64 Console.put_i64
  put_i64-Prints v out e = elim (Bool-cases (ltb v (2 ^ 63))) [
    | inl z ↦ rw z (put_u64-Prints v out (rw z at e))
    | inr z ↦
        let m = u64 (2 ^ 64 - v) in rw z (negative-Prints m (put_unsigned m) out refl (rw z at e))
  ]

  pub put_hex-Prints : (left v : ℕ) → Prints dr (put_hex putc left v) (hex_digits left v)
  unfolding put_hex hex_digits
  put_hex-Prints zero v = Prints-pure dr
  put_hex-Prints (suc i) v =
      let c = get_or hexd (bit_and (v / 2 ^ (i * 4)) 0xF) 0 in
      Prints-then dr (putc c) (put_hex putc i v) (c ∷ []) (hex_digits i v)
        (sends c
          (All-get_or IsByte hexd (bit_and (v / 2 ^ (i * 4)) 0xF) 0 hexd-IsByte (omega arith)))
        (put_hex-Prints i v)
