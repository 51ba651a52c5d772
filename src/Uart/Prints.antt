-- ===== src/Uart/Prints.antt =====
-- What a program sends to a UART, composed from what its parts send.
use dhruvaos.Base.{
  ℕ, zero, suc, ◌+◌, ◌<◌, ◌≡◌, ◌≢◌, refl, ap, sym, ◌∙◌, arith, bit_and, List, [], ◌∷◌, ◌++◌,
  append-nil, append_assoc, inl, inr, Bool-cases, IsByte, u8, length, get_or, ◌==◌, ltb, Bool, true,
  false, not, ◌&&◌,
}
use mathlib.Core.Bool.{false≢true}
use mathlib.Core.Path.{subst}
use dhruvaos.Base.Action.{
  Action, Ensures, Ensures-pure, Ensures-weaken, Ensures-bind, pure, ◌>>=◌, ◌>>◌,
}
use dhruvaos.Uart.{Bus, Port, read_register, wait_room, write_register, putc_on, puts}

-- The writes of a text to the data register.
abbrev pub written : ℕ → List ℕ → List (ℕ × ℕ)
written dr [] = []
written dr (c ∷ cs) = (dr, c) ∷ written dr cs

-- From any state `m` returns, and what it wrote is `out` to the data register, in order.
abbrev pub Prints : ℕ → Action Bus (Unit {0}) → List ℕ → Type 0
Prints dr m out = (u : Bus) → Ensures (λ a u'. u'.writes ≡ u.writes ++ written dr out) (m u)

-- The same, for an action that returns `a`.
abbrev pub Gives : {A : Type 0} → ℕ → Action Bus A → List ℕ → A → Type 0
Gives {A} dr m out a =
    (u : Bus) → Ensures (λ a' u'. (a' ≡ a) × (u'.writes ≡ u.writes ++ written dr out)) (m u)

-- At every read, the FIFO has room within `limit` reads.
abbrev pub Drains : (ℕ → ℕ → ℕ) → ℕ → ℕ → Type 0
Drains answers fr limit = (n : ℕ) → (k : ℕ) × (k < limit) × (bit_and (answers fr (n + k)) 0x20 ≡ 0)

written-append : (dr : ℕ) (xs ys : List ℕ) → written dr (xs ++ ys) ≡ written dr xs ++ written dr ys
written-append dr [] ys = refl
written-append dr (x ∷ xs) ys = ap (λ t. (dr, x) ∷ t) (written-append dr xs ys)

module _ (dr : ℕ) where
  pub Prints-pure : Prints dr (pure tt) []
  Prints-pure u = Ensures-pure tt u (sym (append-nil u.writes))

  joined :
      (u v w : Bus) (xs ys : List ℕ)
      → v.writes ≡ u.writes ++ written dr xs
      → w.writes ≡ v.writes ++ written dr ys
      → w.writes ≡ u.writes ++ written dr (xs ++ ys)
  joined u v w xs ys e e' =
      e'
      ∙ (ap (λ t. t ++ written dr ys) e
          ∙ (append_assoc u.writes (written dr xs) (written dr ys)
              ∙ ap (λ t. u.writes ++ t) (sym (written-append dr xs ys))))

  pub Prints-then :
      (m n : Action Bus (Unit {0})) (xs ys : List ℕ)
      → Prints dr m xs
      → Prints dr n ys
      → Prints dr (m >> n) (xs ++ ys)
  Prints-then m n xs ys hm hn u =
      Ensures-bind m (λ _. n) u (hm u)
        (λ a v e. Ensures-weaken (hn v) (λ b w e'. joined u v w xs ys e e'))

  module _ {A : Type 0} where
    pub Gives-pure :
        (m : Action Bus (Unit {0})) (xs : List ℕ) (a : A)
        → Prints dr m xs
        → Gives dr (m >> pure a) xs a
    Gives-pure m xs a hm u =
        Ensures-bind m (λ _. pure a) u (hm u) (λ t v e. Ensures-pure a v (refl, e))

    pub Gives-then :
        (m : Action Bus (Unit {0})) (n : Action Bus A) (xs ys : List ℕ) (a : A)
        → Prints dr m xs
        → Gives dr n ys a
        → Gives dr (m >> n) (xs ++ ys) a
    Gives-then m n xs ys a hm hn u =
        Ensures-bind m (λ _. n) u (hm u)
          (λ t v e. Ensures-weaken (hn v) (λ b w r. (r.0, joined u v w xs ys e r.1)))

    pub Prints-bind :
        (m : Action Bus A) (f : A → Action Bus (Unit {0})) (xs ys : List ℕ) (a : A)
        → Gives dr m xs a
        → Prints dr (f a) ys
        → Prints dr (m >>= f) (xs ++ ys)
    Prints-bind m f xs ys a hm hf u =
        Ensures-bind m f u (hm u)
          (λ b v r. rw r.0 (Ensures-weaken (hf v) (λ t w e'. joined u v w xs ys r.1 e')))

module _ (answers : ℕ → ℕ → ℕ) (fr : ℕ) where
  -- The loop ends when the flag is clear at one of the reads that its fuel allows.
  wait_room_ends :
      (k fuel : ℕ) (u : Bus)
      → k < fuel
      → bit_and (answers fr (u.reads + k)) 0x20 ≡ 0
      → Ensures (λ a u'. u'.writes ≡ u.writes) (wait_room answers fuel fr u)
  unfolding wait_room ◌>>=◌ read_register
  wait_room_ends k zero u lt clear = absurd (omega arith)
  wait_room_ends zero (suc fuel) u lt clear =
      let same : u.reads + 0 ≡ u.reads = omega arith in
      let now : bit_and (answers fr u.reads) 0x20 ≡ 0 =
        subst (λ n. bit_and (answers fr n) 0x20 ≡ 0) same clear in
      rw now (Ensures-pure tt _ refl)
  wait_room_ends (suc k) (suc fuel) u lt clear =
      let next : u.reads + suc k ≡ u.reads + 1 + k = omega arith in
      elim (Bool-cases (bit_and (answers fr u.reads) 0x20 == 0)) [
        | inl e ↦ rw e (Ensures-pure tt _ refl)
        | inr e ↦ rw e (
            wait_room_ends k fuel (record u { reads = u.reads + 1 }) (omega arith)
              (subst (λ n. bit_and (answers fr n) 0x20 ≡ 0) next clear))
      ]

module _ (port : Port) (answers : ℕ → ℕ → ℕ) (limit : ℕ)
    (drains : Drains answers port.fr limit) where
  -- A byte is sent after a wait.
  pub putc_on-Prints : (c : ℕ) → IsByte c → Prints port.dr (putc_on port answers limit c) (c ∷ [])
  unfolding putc_on
  putc_on-Prints c byte u =
      let (k, lt, clear) = drains u.reads in
      let whole : u8 c ≡ c = omega arith in
      Ensures-bind (wait_room answers limit port.fr) (λ _. write_register port.dr (u8 c)) u
        (wait_room_ends answers port.fr k limit u lt clear)
        (λ a u' e.
          unfold write_register in
          record {
            result = tt;
            state = record u' { writes = u'.writes ++ (port.dr, u8 c) ∷ [] };
            returned = refl;
            post = rw (whole, e) refl;
          })

-- A C string at an address: its bytes, none of them 0, and a terminator.
abbrev pub HoldsString : (ℕ → ℕ) → ℕ → List ℕ → Type 0
HoldsString memory s [] = memory s ≡ 0
HoldsString memory s (c ∷ cs) = (memory s ≡ c) × (c ≢ 0) × IsByte c × HoldsString memory (s + 1) cs

module _ {dr : ℕ} {putc : ℕ → Action Bus (Unit {0})}
    (sends : (c : ℕ) → IsByte c → Prints dr (putc c) (c ∷ [])) where
  pub puts-Prints :
      (memory : ℕ → ℕ) (text : List ℕ) (fuel s : ℕ)
      → HoldsString memory s text
      → length text < fuel
      → Prints dr (puts putc fuel memory s) text
  unfolding puts
  puts-Prints memory text zero s h lt = absurd (omega arith)
  puts-Prints memory [] (suc fuel) s h lt = rw h (Prints-pure dr)
  puts-Prints memory (c ∷ cs) (suc fuel) s (here, nonzero, byte, h) lt =
      let more : (c == 0) ≡ false = ground arith in
      rw (here, more)
        (Prints-then dr (putc c) (puts putc fuel memory (s + 1)) (c ∷ []) cs (sends c byte)
          (puts-Prints memory cs fuel (s + 1) h (omega arith)))

-- A literal in memory.
HoldsString-shift :
    (x : ℕ) (xs : List ℕ) (s : ℕ) (text : List ℕ)
    → HoldsString (λ a. get_or xs a 0) s text
    → HoldsString (λ a. get_or (x ∷ xs) a 0) (suc s) text
HoldsString-shift x xs s [] h = h
HoldsString-shift x xs s (c ∷ cs) (here, nonzero, byte, h) =
    let next : suc s + 1 ≡ suc (s + 1) = omega arith in
    (here, nonzero, byte, rw next (HoldsString-shift x xs (s + 1) cs h))

-- Bytes that are not 0.
abbrev pub is_text : List ℕ → Bool
is_text [] = true
is_text (c ∷ cs) = not (c == 0) && (ltb c 256 && is_text cs)

pub not_zero : (c : ℕ) → not (c == 0) ≡ true → c ≢ 0
not_zero c h e = false≢true (rw e at h)

pub literal-HoldsString :
    (text : List ℕ) → is_text text ≡ true → HoldsString (λ a. get_or text a 0) 0 text
literal-HoldsString [] h = refl
literal-HoldsString (c ∷ cs) h =
    let nonzero : (not (c == 0)) ≡ true = ground arith in
    let byte : ltb c 256 ≡ true = ground arith in
    let rest : is_text cs ≡ true = ground arith in
    (
      refl,
      λ e. not_zero c nonzero e,
      ground arith,
      HoldsString-shift c cs 0 cs (literal-HoldsString cs rest),
    )
