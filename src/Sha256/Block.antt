-- ===== src/Sha256/Block.antt =====
-- One block: what `sha256_block` reads of its bytes, and what its loops compute.
use dhruvaos.Base.{ℕ, zero, suc, ◌+◌, ◌*◌, ◌≤◌, ◌<◌, ◌≡◌, refl, List, arith, take, get_or-take}
use dhruvaos.Sha256.{load_word, load_words, compress}

load_word-take : (p : List ℕ) (i : ℕ) → i < 16 → load_word (take 64 p) i ≡ load_word p i
unfolding load_word
load_word-take p i h = rw (
  get_or-take 64 p (i * 4) 0 (omega arith),
  get_or-take 64 p (i * 4 + 1) 0 (omega arith),
  get_or-take 64 p (i * 4 + 2) 0 (omega arith),
  get_or-take 64 p (i * 4 + 3) 0 (omega arith),
)

load_words-take :
    (p : List ℕ) (left i : ℕ) (w : List ℕ)
    → i + left ≤ 16
    → load_words (take 64 p) left i w ≡ load_words p left i w
unfolding load_words
load_words-take p zero i w h = refl
load_words-take p (suc left) i w h =
    rw (load_word-take p i (omega arith)) (load_words-take p left (i + 1) _ (omega arith))

-- A block is its first 64 bytes.
pub compress-take : (h p : List ℕ) → compress h (take 64 p) ≡ compress h p
unfolding compress
compress-take h p = rw (load_words-take p 16 0 _ (omega arith))
