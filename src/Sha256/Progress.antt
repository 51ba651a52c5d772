-- ===== src/Sha256/Progress.antt =====
-- The specification that the streaming interface is held to: bytes are taken one at a time, and each
-- 64th completes a block.
use dhruvaos.Base.{
  ℕ, suc, ◌+◌, ◌%◌, ◌<◌, ◌≡◌, refl, sym, ap, ◌∙◌, List, [], ◌∷◌, ◌++◌, append-nil, append_assoc,
  arith, length, length-append, ◌==◌, if◌then◌else◌,
}
use dhruvaos.Sha256.{compress}

-- A message in progress: the words after its whole blocks, and the bytes behind them.
pub record Progress : Type 0 where
  pub words : List ℕ
  pub pending : List ℕ

unfoldable pub absorb_byte : Progress → ℕ → Progress
absorb_byte s b =
    let more = s.pending ++ (b ∷ []) in
    if length more == 64
    then record { words = compress s.words more; pending = [] }
    else record s { pending = more }

unfoldable pub absorb : Progress → List ℕ → Progress
unfolding absorb_byte
absorb s [] = s
absorb s (b ∷ bs) = absorb (absorb_byte s b) bs

pub absorb-append : (s : Progress) (xs ys : List ℕ) → absorb s (xs ++ ys) ≡ absorb (absorb s xs) ys
unfolding absorb
absorb-append s [] ys = refl
absorb-append s (x ∷ xs) ys = absorb-append (absorb_byte s x) xs ys

absorb_byte_room :
    (s : Progress) (b : ℕ) → length s.pending < 64 → length (absorb_byte s b).pending < 64
unfolding absorb_byte
absorb_byte_room s b h = ground (arith, length-append s.pending (b ∷ []))

pub absorb_room :
    (s : Progress) (xs : List ℕ) → length s.pending < 64 → length (absorb s xs).pending < 64
unfolding absorb
absorb_room s [] h = h
absorb_room s (x ∷ xs) h = absorb_room (absorb_byte s x) xs (absorb_byte_room s x h)

absorb_byte_short :
    (s : Progress) (b : ℕ)
    → suc (length s.pending) < 64
    → absorb_byte s b ≡ record s { pending = s.pending ++ (b ∷ []) }
unfolding absorb_byte
absorb_byte_short s b h = ground (arith, length-append s.pending (b ∷ []))

-- Bytes that do not fill a block wait.
pub absorb_short :
    (s : Progress) (xs : List ℕ)
    → length s.pending + length xs < 64
    → absorb s xs ≡ record s { pending = s.pending ++ xs }
unfolding absorb
absorb_short s [] h = ap (λ p. record s { pending = p }) (sym (append-nil s.pending))
absorb_short s (x ∷ xs) h = rw (absorb_byte_short s x (omega arith)) (
    absorb_short (record s { pending = s.pending ++ (x ∷ []) }) xs
      (omega (arith, length-append s.pending (x ∷ [])))
    ∙ ap (λ p. record s { pending = p }) (append_assoc s.pending (x ∷ []) xs))

absorb_byte_full :
    (s : Progress) (b : ℕ)
    → suc (length s.pending) ≡ 64
    → absorb_byte s b ≡ record { words = compress s.words (s.pending ++ (b ∷ [])); pending = [] }
unfolding absorb_byte
absorb_byte_full s b h = ground (arith, length-append s.pending (b ∷ []))

-- Bytes that fill the block have it compressed.
pub absorb_full :
    (s : Progress) (xs : List ℕ)
    → length s.pending < 64
    → length s.pending + length xs ≡ 64
    → absorb s xs ≡ record { words = compress s.words (s.pending ++ xs); pending = [] }
unfolding absorb
absorb_full s [] h e = absurd (omega arith)
absorb_full s (x ∷ []) h e = absorb_byte_full s x (omega arith)
absorb_full s (x ∷ y ∷ xs) h e = rw (absorb_byte_short s x (omega arith)) (
    absorb_full (record s { pending = s.pending ++ (x ∷ []) }) (y ∷ xs)
      (omega (arith, length-append s.pending (x ∷ [])))
      (omega (arith, length-append s.pending (x ∷ [])))
    ∙ ap (λ p. record { words = compress s.words p; pending = [] })
        (append_assoc s.pending (x ∷ []) (y ∷ xs)))

pub absorb_byte_pending :
    (s : Progress) (b : ℕ)
    → length s.pending < 64
    → length (absorb s (b ∷ [])).pending ≡ (length s.pending + 1) % 64
unfolding absorb absorb_byte
absorb_byte_pending s b h = ground (arith, length-append s.pending (b ∷ []))

-- How many bytes wait.
pub absorb_pending :
    (s : Progress) (xs : List ℕ)
    → length s.pending < 64
    → length (absorb s xs).pending ≡ (length s.pending + length xs) % 64
unfolding absorb
absorb_pending s [] h = omega arith
absorb_pending s (x ∷ xs) h =
    let one : length (absorb_byte s x).pending ≡ (length s.pending + 1) % 64 =
      absorb_byte_pending s x h in
    omega (arith, absorb_pending (absorb_byte s x) xs (absorb_byte_room s x h))
