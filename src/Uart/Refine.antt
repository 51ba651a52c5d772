-- ===== src/Uart/Refine.antt =====
-- `dprintf` over memory and a UART beside `dprintf` on texts.
use dhruvaos.Base.{
  ℕ, zero, suc, ◌+◌, ◌<◌, ◌≡◌, ◌≢◌, refl, ◌∙◌, arith, Option, none, some, List, [], ◌∷◌, ◌++◌,
  length, ◌==◌, ◌&&◌, not, IsByte, Bool-cases, inl, inr, true, false,
}
use mathlib.Core.Path.{subst}
use mathlib.Core.Option.{some_inj, none-ne-some}
use dhruvaos.Base.Action.{Action, ◌>>=◌, ◌>>◌, pure}
use dhruvaos.Console.{Arg, directive, put_before, format, dprintf}
use dhruvaos.Uart.{Bus, Port}
use dhruvaos.Uart.Prints.{
  Prints, Prints-pure, Prints-then, Prints-bind, HoldsString, Drains, putc_on-Prints,
}
use dhruvaos.Uart.Printf.{directive_at, dprintf_at, dprintf_on}
use dhruvaos.Uart.Directive.{Passes, Continues, directive_at-Continues}

put_before-some :
    (xs : List ℕ) (o : Option (List ℕ)) (ys : List ℕ)
    → put_before xs o ≡ some ys
    → (rest : List ℕ) × (o ≡ some rest) × (xs ++ rest ≡ ys)
put_before-some xs none ys e = absurd (none-ne-some _ e)
put_before-some xs (some rest) ys e = (rest, refl, some_inj.0 e)

-- The branches of a round of the loop.
module _ (putc : ℕ → Action Bus (Unit {0})) (limit : ℕ) (memory : ℕ → ℕ) (fuel fmt : ℕ)
    (words : List ℕ) where
  dprintf_at-end : memory fmt ≡ 0 → dprintf_at putc limit memory (suc fuel) fmt words ≡ pure tt
  unfolding dprintf_at
  dprintf_at-end h = rw h

  dprintf_at-plain :
      (c : ℕ)
      → memory fmt ≡ c
      → c ≢ 0
      → (c == 37) && not (memory (fmt + 1) == 0) ≡ false
      → dprintf_at putc limit memory (suc fuel) fmt words
        ≡ (putc c >> dprintf_at putc limit memory fuel (fmt + 1) words)
  unfolding dprintf_at
  dprintf_at-plain c h nonzero e = let more : (c == 0) ≡ false = ground arith in rw (h, more, e)

  dprintf_at-percent :
      (d : ℕ)
      → memory fmt ≡ 37
      → memory (fmt + 1) ≡ d
      → d ≢ 0
      → dprintf_at putc limit memory (suc fuel) fmt words ≡ (
          directive_at putc limit memory (fmt + 1) words >>= λ next.
          dprintf_at putc limit memory fuel next.0 next.1)
  unfolding dprintf_at
  dprintf_at-percent d h h' nonzero = let more : (d == 0) ≡ false = ground arith in rw (h, h', more)

not_both : (c d : ℕ) → c == 37 ≡ false → (c == 37) && not (d == 0) ≡ false
not_both c d e = rw e

not_before_end : (c d : ℕ) → d ≡ 0 → (c == 37) && not (d == 0) ≡ false
not_before_end c d e = elim (Bool-cases (c == 37)) [
  | inl p ↦ let ended : (d == 0) ≡ true = ground arith in rw (p, ended)
  | inr p ↦ rw p
]

module _ {dr : ℕ} {putc : ℕ → Action Bus (Unit {0})}
    (sends : (c : ℕ) → IsByte c → Prints dr (putc c) (c ∷ [])) (limit : ℕ) (memory : ℕ → ℕ) where
  -- The rest of the format, on a unit of fuel more for its terminator.
  abbrev IsRest : ℕ → Type 0
  IsRest k =
      (text : List ℕ) (args : List Arg) (fmt : ℕ) (words : List ℕ) (out : List ℕ)
      → HoldsString memory fmt text
      → length text < limit
      → Passes memory limit args words
      → format k text args ≡ some out
      → Prints dr (dprintf_at putc limit memory (suc k) fmt words) out

  after_directive :
      (k n : ℕ) (m : Action Bus (ℕ × List ℕ)) (got : Option (List ℕ × List ℕ × List Arg))
      (out : List ℕ)
      → IsRest k
      → n < limit
      → ((r : List ℕ × List ℕ × List Arg) → got ≡ some r → Continues sends limit memory m n r)
      → ◌≡◌ {A = Option (List ℕ)}
          (elim got [
            | none ↦ none
            | some (out', fmt', args') ↦ put_before out' (format k fmt' args')
          ])
          (some out)
      → Prints dr (m >>= λ next. dprintf_at putc limit memory (suc k) next.0 next.1) out
  after_directive k n m none out rest lt step e = absurd (none-ne-some _ e)
  after_directive k n m (some (out', fmt', args')) out rest lt step e =
      let c = step (out', fmt', args') refl in
      let (tail, got, whole) = put_before-some out' (format k fmt' args') out e in
      subst (Prints dr (m >>= λ next. dprintf_at putc limit memory (suc k) next.0 next.1)) whole (
        Prints-bind dr m (λ next. dprintf_at putc limit memory (suc k) next.0 next.1) out' tail
          (c.next, c.words) c.gives
          (rest fmt' args' c.next c.words tail c.text (omega (arith, c.shorter)) c.passed got))

  -- A character that is printed as it is.
  plain_first :
      (k c fmt : ℕ) (text : List ℕ) (words : List ℕ) (tail : List ℕ)
      → HoldsString memory fmt (c ∷ text)
      → (c == 37) && not (memory (fmt + 1) == 0) ≡ false
      → Prints dr (dprintf_at putc limit memory k (fmt + 1) words) tail
      → Prints dr (dprintf_at putc limit memory (suc k) fmt words) (c ∷ tail)
  plain_first k c fmt text words tail h e rest =
      rw (dprintf_at-plain putc limit memory k fmt words c h.0 h.1 e) (
        Prints-then dr (putc c) (dprintf_at putc limit memory k (fmt + 1) words) (c ∷ []) tail
          (sends c h.2) rest)

  at_end :
      (k fmt : ℕ) (words : List ℕ)
      → memory fmt ≡ 0
      → Prints dr (dprintf_at putc limit memory (suc k) fmt words) []
  at_end k fmt words h = rw (dprintf_at-end putc limit memory k fmt words h) (Prints-pure dr)

  format-Prints : (k : ℕ) → IsRest k
  unfolding format
  format-Prints k [] args fmt words out h lt a e =
      subst (Prints dr (dprintf_at putc limit memory (suc k) fmt words)) (some_inj.0 e)
        (at_end k fmt words h)
  format-Prints zero (c ∷ text) args fmt words out h lt a e = absurd (none-ne-some _ e)
  format-Prints (suc k) (c ∷ []) args fmt words out h lt a e =
      subst (Prints dr (dprintf_at putc limit memory (suc (suc k)) fmt words)) (some_inj.0 e) (
        plain_first (suc k) c fmt [] words [] h (not_before_end c (memory (fmt + 1)) h.3)
          (at_end k (fmt + 1) words h.3))
  format-Prints (suc k) (c ∷ d ∷ text) args fmt words out h lt a e = elim (Bool-cases (c == 37)) [
    | inl p ↦
        let percent : c ≡ 37 = ground arith in
        rw (dprintf_at-percent putc limit memory (suc k) fmt words d (h.0 ∙ percent) h.3.0 h.3.1) (
          after_directive k (suc (length text)) (directive_at putc limit memory (fmt + 1) words)
            (directive d text args) out (format-Prints k) (omega arith)
            (λ r.
              directive_at-Continues sends limit memory d text args (fmt + 1) words r h.3
                (omega arith) a)
            (rw p at e))
    | inr p ↦
        let (tail, got, whole) =
          put_before-some (c ∷ []) (format k (d ∷ text) args) out (rw p at e) in
        subst (Prints dr (dprintf_at putc limit memory (suc (suc k)) fmt words)) whole (
          plain_first (suc k) c fmt (d ∷ text) words tail h (not_both c (memory (fmt + 1)) p)
            (format-Prints k (d ∷ text) args (fmt + 1) words tail h.3 (omega arith) a got))
  ]

-- Take a UART whose transmit FIFO has room again within `limit` reads of its flags whenever it is
-- read, and a format and string arguments in memory as C strings of fewer than `limit` bytes. When
-- formatting the text with the arguments gives a text, the `dprintf` of either board, on one round
-- more than the format has characters, returns, and what it has written is that text to the UART's
-- data register, byte by byte and in order.
pub dprintf_on-Prints :
    (port : Port) (answers : ℕ → ℕ → ℕ) (limit : ℕ) (memory : ℕ → ℕ) (text : List ℕ)
    (args : List Arg) (fmt : ℕ) (words : List ℕ) (out : List ℕ)
    → Drains answers port.fr limit
    → HoldsString memory fmt text
    → length text < limit
    → Passes memory limit args words
    → dprintf text args ≡ some out
    → Prints port.dr (dprintf_on port answers limit memory (suc (length text)) fmt words) out
unfolding dprintf dprintf_on
dprintf_on-Prints port answers limit memory text args fmt words out drains h lt a e =
    format-Prints (putc_on-Prints port answers limit drains) limit memory (length text) text args
      fmt words out h lt a e
