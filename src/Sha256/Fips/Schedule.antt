-- ===== src/Sha256/Fips/Schedule.antt =====
-- The first two loops of `sha256_block` beside the message schedule of FIPS 180-4.
use dhruvaos.Base.{
  ℕ, zero, suc, ◌+◌, ◌-◌, ◌*◌, ◌^◌, ◌≤◌, ◌<◌, ◌≡◌, refl, ap, sym, ◌∙◌, bit_xor, List, [], ◌∷◌, ◌++◌,
  append-nil, append_assoc, arith, IsByte, IsWord, ◌>>◌, length, get_or, set, take, drop, replicate,
  All, All-set, All-get_or, All-replicate, length-append, length-set, take_all, drop_all,
  take-suc-set, get_or-take,
}
use native.Mathlib.Nat.{zero-add, suc-add}
use dhruvaos.Sha256.{rotr32, load_word, load_words, extend_word, extend_words, at}
use dhruvaos.Sha256.Fips.{small_sigma0, small_sigma1, block_words, next_word, grow, schedule}
use dhruvaos.Sha256.Fips.Words.{rotr32-rotr, load_word-sum}

module _ (x : ℕ) (h : IsWord x) where
  small_sigma0_lem : bit_xor (bit_xor (rotr32 x 7) (rotr32 x 18)) (x >> 3) ≡ small_sigma0 x
  unfolding small_sigma0
  small_sigma0_lem = rw (
    rotr32-rotr 7 x (omega arith) (omega arith) refl h,
    rotr32-rotr 18 x (omega arith) (omega arith) refl h,
  )

  small_sigma1_lem : bit_xor (bit_xor (rotr32 x 17) (rotr32 x 19)) (x >> 10) ≡ small_sigma1 x
  unfolding small_sigma1
  small_sigma1_lem = rw (
    rotr32-rotr 17 x (omega arith) (omega arith) refl h,
    rotr32-rotr 19 x (omega arith) (omega arith) refl h,
  )

-- The array `w` while a loop fills it: the words up to index `t` are the schedule so far.
record Filled (t : ℕ) (ws w : List ℕ) : Type 0 where
  front : take t w ≡ ws
  size : length w ≡ 64
  words : All IsWord w

Filled-set :
    {t v : ℕ} {ws w : List ℕ}
    → Filled t ws w
    → t < 64
    → IsWord v
    → Filled (t + 1) (ws ++ (v ∷ [])) (set w t v)
Filled-set {t} {v} {ws} {w} f lt h = record {
  front =
      let one : t + 1 ≡ suc t = omega arith in
      rw one (take-suc-set w t v (omega (arith, f.size)) ∙ ap (λ xs. xs ++ (v ∷ [])) f.front);
  size = length-set w t v ∙ f.size;
  words = All-set IsWord w t v f.words h;
}

at-drop : (p : List ℕ) (n i : ℕ) → get_or (drop n p) i 0 ≡ at p (n + i)
at-drop p zero i = rw zero-add
at-drop [] (suc n) i = refl
at-drop (x ∷ p) (suc n) i = rw suc-add (at-drop p n i)

drop-drop : (p : List ℕ) (n m : ℕ) → drop m (drop n p) ≡ drop (n + m) p
drop-drop p zero m = rw zero-add
drop-drop [] (suc n) m = rw suc-add (drop_all m [] (omega arith))
drop-drop (x ∷ p) (suc n) m = rw suc-add (drop-drop p n m)

IsByte-at : (p : List ℕ) (i : ℕ) → All IsByte p → IsByte (at p i)
IsByte-at p i bytes = All-get_or IsByte p i 0 bytes (omega arith)

module _ (p : List ℕ) (i : ℕ) (bytes : All IsByte p) where
  load_word-block :
      load_word p i
      ≡ get_or (drop (i * 4) p) 0 0 * 2 ^ 24
        + get_or (drop (i * 4) p) 1 0 * 2 ^ 16
        + get_or (drop (i * 4) p) 2 0 * 2 ^ 8
        + get_or (drop (i * 4) p) 3 0
  load_word-block =
      load_word-sum p i (IsByte-at p (i * 4 + 1) bytes) (IsByte-at p (i * 4 + 2) bytes)
        (IsByte-at p (i * 4 + 3) bytes)
      ∙ omega (
        arith,
        at-drop p (i * 4) 0,
        at-drop p (i * 4) 1,
        at-drop p (i * 4) 2,
        at-drop p (i * 4) 3,
        ap (at p) first,
      )
    where
      first : i * 4 + 0 ≡ i * 4
      first = omega arith

  load_word-IsWord : IsWord (load_word p i)
  load_word-IsWord = omega (
    arith,
    load_word-sum p i (IsByte-at p (i * 4 + 1) bytes) (IsByte-at p (i * 4 + 2) bytes)
        (IsByte-at p (i * 4 + 3) bytes),
    IsByte-at p (i * 4) bytes,
    IsByte-at p (i * 4 + 1) bytes,
    IsByte-at p (i * 4 + 2) bytes,
    IsByte-at p (i * 4 + 3) bytes,
  )

  block_words-suc :
      (left : ℕ)
      → block_words (suc left) (drop (i * 4) p)
        ≡ load_word p i ∷ block_words left (drop ((i + 1) * 4) p)
  unfolding block_words
  block_words-suc left =
      let next : i * 4 + 4 ≡ (i + 1) * 4 = omega arith in
      rw (drop-drop p (i * 4) 4, next, load_word-block)

append_no_words : (ws q : List ℕ) → ws ++ block_words 0 q ≡ ws
unfolding block_words
append_no_words ws q = append-nil ws

load_words-Filled :
    (p : List ℕ) (left i : ℕ) (ws w : List ℕ)
    → All IsByte p
    → i + left ≤ 16
    → Filled i ws w
    → Filled (i + left) (ws ++ block_words left (drop (i * 4) p)) (load_words p left i w)
unfolding load_words
load_words-Filled p zero i ws w bytes h f =
    let same : i + 0 ≡ i = omega arith in rw (same, append_no_words) f
load_words-Filled p (suc left) i ws w bytes h f =
    let next : i + suc left ≡ i + 1 + left = omega arith in
    rw
      (
        next,
        block_words-suc p i bytes left,
        ← append_assoc ws (load_word p i ∷ []) (block_words left (drop ((i + 1) * 4) p)),
      )
      (load_words-Filled p left (i + 1) (ws ++ (load_word p i ∷ [])) (set w i (load_word p i)) bytes
        (omega arith) (Filled-set f (omega arith) (load_word-IsWord p i bytes)))

module _ {t : ℕ} {ws w : List ℕ} (f : Filled t ws w) where
  at-Filled : (i : ℕ) → i < t → get_or ws i 0 ≡ at w i
  at-Filled i h = ap (λ xs. get_or xs i 0) (sym f.front) ∙ get_or-take t w i 0 h

  IsWord-Filled : (i : ℕ) → IsWord (at w i)
  IsWord-Filled i = All-get_or IsWord w i 0 f.words (omega arith)

  extend_word-next_word : 16 ≤ t → extend_word w t ≡ next_word t ws
  unfolding extend_word next_word
  extend_word-next_word h =
      rw
        (
          at-Filled (t - 2) (omega arith),
          at-Filled (t - 7) (omega arith),
          at-Filled (t - 15) (omega arith),
          at-Filled (t - 16) (omega arith),
          small_sigma0_lem (at w (t - 15)) (IsWord-Filled (t - 15)),
          small_sigma1_lem (at w (t - 2)) (IsWord-Filled (t - 2)),
        )
        (omega arith)

  next_word-IsWord : IsWord (next_word t ws)
  unfolding next_word
  next_word-IsWord = omega arith

extend_words-grow :
    (left t : ℕ) (ws w : List ℕ)
    → 16 ≤ t
    → t + left ≡ 64
    → Filled t ws w
    → extend_words left t w ≡ grow left t ws
unfolding extend_words grow
extend_words-grow zero t ws w h e f = sym (take_all t w (omega (arith, f.size))) ∙ f.front
extend_words-grow (suc left) t ws w h e f = rw (extend_word-next_word f h) (
    extend_words-grow left (t + 1) (ws ++ (next_word t ws ∷ [])) (set w t (next_word t ws))
      (omega arith) (omega arith) (Filled-set f (omega arith) (next_word-IsWord f)))

-- The array that the two loops leave is the schedule.
pub extend_words-schedule :
    (p : List ℕ)
    → All IsByte p
    → extend_words 48 16 (load_words p 16 0 (replicate 64 0)) ≡ schedule p
unfolding schedule
extend_words-schedule p bytes =
    extend_words-grow 48 16 (block_words 16 p) (load_words p 16 0 (replicate 64 0)) (omega arith)
      refl (load_words-Filled p 16 0 [] (replicate 64 0) bytes (omega arith) empty)
  where
    empty : Filled 0 [] (replicate 64 0)
    empty = record { front = refl; size = refl; words = All-replicate IsWord 64 0 (omega arith) }

length-grow : (n t : ℕ) (w : List ℕ) → length (grow n t w) ≡ length w + n
unfolding grow
length-grow zero t w = omega arith
length-grow (suc n) t w =
    omega (
      arith,
      length-grow n (t + 1) (w ++ (next_word t w ∷ [])),
      length-append w (next_word t w ∷ []),
    )

pub length-schedule : (p : List ℕ) → length (schedule p) ≡ 64
unfolding schedule block_words
length-schedule p = length-grow 48 16 (block_words 16 p)
