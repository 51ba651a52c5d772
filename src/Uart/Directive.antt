-- ===== src/Uart/Directive.antt =====
-- The directives of `dprintf` over memory and a UART beside those on texts.
use dhruvaos.Base.{
  ℕ, zero, suc, ◌+◌, ◌<◌, ◌≤◌, ◌≡◌, refl, arith, Option, none, some, List, [], ◌∷◌, length, ◌==◌,
  ◌||◌, IsByte, Bool-cases, inl, inr,
}
use mathlib.Core.Path.{subst}
use mathlib.Core.Option.{some_inj, none-ne-some}
use dhruvaos.Base.Action.{Action, ◌>>◌, pure}
use dhruvaos.Console.{Arg, skip_l, put_number, put_string, directive, put_before, format, dprintf}
use dhruvaos.Console
use dhruvaos.Uart.{Bus, puts, put_i64}
use dhruvaos.Uart.Prints.{Prints, Gives, Gives-pure, Gives-then, HoldsString, puts-Prints}
use dhruvaos.Uart.Numbers.{put_i64-Prints}
use dhruvaos.Uart.Printf.{skip_ls, string_at, number_at, long_at, directive_at}

length-skip_l : (fmt : List ℕ) → length (skip_l fmt) ≤ length fmt
unfolding skip_l
length-skip_l [] = omega arith
length-skip_l (c ∷ fmt) = elim (Bool-cases (c == 108)) [
  | inl e ↦ rw e (omega (arith, length-skip_l fmt))
  | inr e ↦ rw e (omega arith)
]

module _ (memory : ℕ → ℕ) where
  -- The loop over the `l`s stops at what `skip_l` leaves.
  skip_ls-skip_l :
      (fmt : List ℕ) (fuel p : ℕ)
      → HoldsString memory p fmt
      → length fmt < fuel
      → (q : ℕ) × (skip_ls fuel memory p ≡ some q) × HoldsString memory q (skip_l fmt)
  unfolding skip_ls skip_l
  skip_ls-skip_l fmt zero p h lt = absurd (omega arith)
  skip_ls-skip_l [] (suc fuel) p h lt = (p, rw h refl, h)
  skip_ls-skip_l (c ∷ fmt) (suc fuel) p h lt = elim (Bool-cases (c == 108)) [
    | inl e ↦
        let (q, got, holds) = skip_ls-skip_l fmt fuel (p + 1) h.3 (omega arith) in
        (q, rw (h.0, e) got, rw e holds)
    | inr e ↦ (p, rw (h.0, e) refl, rw e h)
  ]

-- The words are the arguments: pointers to strings that the loops have fuel for, and numbers.
abbrev pub Passes : (ℕ → ℕ) → ℕ → List Arg → List ℕ → Type 0
Passes memory limit [] words = Unit
Passes memory limit (arg ∷ args) [] = ⊥
Passes memory limit (Arg.string s ∷ args) (w ∷ words) =
    HoldsString memory w s × (length s < limit) × Passes memory limit args words
Passes memory limit (Arg.number v ∷ args) (w ∷ words) = (v ≡ w) × Passes memory limit args words

module _ {dr : ℕ} {putc : ℕ → Action Bus (Unit {0})}
    (sends : (c : ℕ) → IsByte c → Prints dr (putc c) (c ∷ [])) (limit : ℕ) (memory : ℕ → ℕ) where
  -- The action sends what the directive prints, and goes on where the directive does.
  pub record Continues (m : Action Bus (ℕ × List ℕ)) (n : ℕ) (r : List ℕ × List ℕ × List Arg)
      : Type 0 where
    pub next : ℕ
    pub words : List ℕ
    pub gives : Gives dr m r.0 (next, words)
    pub text : HoldsString memory next r.1
    pub shorter : length r.1 ≤ n
    pub passed : Passes memory limit r.2 words

  string_at-Continues :
      (c : ℕ) (fmt : List ℕ) (args : List Arg) (p : ℕ) (words : List ℕ)
      (r : List ℕ × List ℕ × List Arg)
      → HoldsString memory p (c ∷ fmt)
      → Passes memory limit args words
      → put_string fmt args ≡ some r
      → Continues (string_at putc limit memory p words) (suc (length fmt)) r
  unfolding put_string string_at
  string_at-Continues c fmt [] p words r h a e = absurd (none-ne-some _ e)
  string_at-Continues c fmt (Arg.number v ∷ args) p words r h a e = absurd (none-ne-some _ e)
  string_at-Continues c fmt (Arg.string s ∷ args) p [] r h a e = absurd a
  string_at-Continues c fmt (Arg.string s ∷ args) p (w ∷ words) r h (here, fits, a) e =
      subst (Continues (puts putc limit memory w >> pure (p + 1, words)) (suc (length fmt)))
        (some_inj.0 e)
        (record {
          next = p + 1;
          words = words;
          gives =
              Gives-pure dr (puts putc limit memory w) s (p + 1, words)
                (puts-Prints sends memory s limit w here fits);
          text = h.3;
          shorter = omega arith;
          passed = a;
        })

  -- The number, when there is one to print.
  printed_number :
      (v p : ℕ) (fmt : List ℕ) (args : List Arg) (words : List ℕ) (n : ℕ) (got : Option (List ℕ))
      (r : List ℕ × List ℕ × List Arg)
      → HoldsString memory (p + 1) fmt
      → length fmt ≤ n
      → Passes memory limit args words
      → Console.put_i64 v ≡ got
      → ◌≡◌ {A = Option (List ℕ × List ℕ × List Arg)}
          (elim got [ none ↦ none | some out ↦ some (out, fmt, args) ])
          (some r)
      → Continues (number_at putc limit memory p (v ∷ words)) n r
  unfolding number_at
  printed_number v p fmt args words n none r h le a same e = absurd (none-ne-some _ e)
  printed_number v p fmt args words n (some out) r h le a same e =
      subst (Continues (put_i64 putc v >> pure (p + 1, words)) n) (some_inj.0 e) (record {
        next = p + 1;
        words = words;
        gives = Gives-pure dr (put_i64 putc v) out (p + 1, words) (put_i64-Prints sends v out same);
        text = h;
        shorter = le;
        passed = a;
      })

  number_at-Continues :
      (fmt : List ℕ) (args : List Arg) (p : ℕ) (words : List ℕ) (n : ℕ)
      (r : List ℕ × List ℕ × List Arg)
      → HoldsString memory p fmt
      → length fmt ≤ n
      → Passes memory limit args words
      → put_number fmt args ≡ some r
      → Continues (number_at putc limit memory p words) n r
  unfolding put_number
  number_at-Continues [] args p words n r h le a e = absurd (none-ne-some _ e)
  number_at-Continues (d ∷ fmt) [] p words n r h le a e = absurd (none-ne-some _ e)
  number_at-Continues (d ∷ fmt) (Arg.string s ∷ args) p words n r h le a e =
      absurd (none-ne-some _ e)
  number_at-Continues (d ∷ fmt) (Arg.number v ∷ args) p [] n r h le a e = absurd a
  number_at-Continues (d ∷ fmt) (Arg.number v ∷ args) p (w ∷ words) n r h le (same, a) e =
      rw (← same)
        (printed_number v p fmt args words n (Console.put_i64 v) r h.3 (omega arith) a refl e)

  long_at-Continues :
      (fmt : List ℕ) (args : List Arg) (p : ℕ) (words : List ℕ) (r : List ℕ × List ℕ × List Arg)
      → HoldsString memory p fmt
      → length fmt < limit
      → Passes memory limit args words
      → put_number (skip_l fmt) args ≡ some r
      → Continues (long_at putc limit memory p words) (length fmt) r
  unfolding long_at
  long_at-Continues fmt args p words r h lt a e =
      let (q, got, holds) = skip_ls-skip_l memory fmt limit p h lt in
      rw (got, long_at)
        (number_at-Continues (skip_l fmt) args q words (length fmt) r holds (length-skip_l fmt) a e)

  pub directive_at-Continues :
      (c : ℕ) (fmt : List ℕ) (args : List Arg) (p : ℕ) (words : List ℕ)
      (r : List ℕ × List ℕ × List Arg)
      → HoldsString memory p (c ∷ fmt)
      → suc (length fmt) < limit
      → Passes memory limit args words
      → directive c fmt args ≡ some r
      → Continues (directive_at putc limit memory p words) (suc (length fmt)) r
  unfolding directive directive_at
  directive_at-Continues c fmt args p words r h lt a e = elim (Bool-cases (c == 115)) [
    | inl s ↦ rw (h.0, s) (string_at-Continues c fmt args p words r h a (rw s at e))
    | inr s ↦ elim (Bool-cases ((c == 100) || (c == 108))) [
      | inl d ↦ rw (h.0, s, d) (long_at-Continues (c ∷ fmt) args p words r h lt a (rw (s, d) at e))
      | inr d ↦
          rw (h.0, s, d)
            (subst (Continues (putc 37 >> (putc c >> pure (p + 1, words))) (suc (length fmt)))
              (some_inj.0 (rw (s, d) at e))
              (record {
                next = p + 1;
                words = words;
                gives =
                    Gives-then dr (putc 37) (putc c >> pure (p + 1, words)) (37 ∷ []) (c ∷ [])
                      (p + 1, words) (sends 37 (omega arith))
                      (Gives-pure dr (putc c) (c ∷ []) (p + 1, words) (sends c h.2));
                text = h.3;
                shorter = omega arith;
                passed = a;
              }))
    ]
  ]
