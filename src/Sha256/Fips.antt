-- ===== src/Sha256/Fips.antt =====
-- SHA-256 word for word as FIPS 180-4 states it, with nothing of boot/stage0/sha256.c but the name
-- of the eight working variables: the functions of section 4.1.2, the constants of sections 4.2.2
-- and 5.3.3, the padding of section 5.1.1, and the computation of section 6.2.2.
pub mod Words
pub mod Schedule
pub mod Rounds
pub mod Digest
use dhruvaos.Base.{
  ℕ, zero, suc, ◌+◌, ◌-◌, ◌*◌, ◌/◌, ◌%◌, ◌^◌, bit_and, bit_xor, List, [], ◌∷◌, ◌++◌, length, get_or,
  take, drop, replicate,
}
use mathlib.Core.List.{map}
use dhruvaos.Sha256.{Regs}
use dhruvaos.Sha256.Roots.{primes_from, square_root_bits, cube_root_bits}

-- `ROTR^n(x)` and `SHR^n(x)`, and addition modulo 2 ^ 32.
unfoldable pub rotr : ℕ → ℕ → ℕ
rotr n x = x / 2 ^ n + x % 2 ^ n * 2 ^ (32 - n)

abbrev pub shr : ℕ → ℕ → ℕ
shr n x = x / 2 ^ n

abbrev pub word : ℕ → ℕ
word x = x % 2 ^ 32

unfoldable pub choose : ℕ → ℕ → ℕ → ℕ
choose x y z = bit_xor (bit_and x y) (bit_and (2 ^ 32 - 1 - x) z)

unfoldable pub majority : ℕ → ℕ → ℕ → ℕ
majority x y z = bit_xor (bit_xor (bit_and x y) (bit_and x z)) (bit_and y z)

unfoldable pub big_sigma0 : ℕ → ℕ
big_sigma0 x = bit_xor (bit_xor (rotr 2 x) (rotr 13 x)) (rotr 22 x)

unfoldable pub big_sigma1 : ℕ → ℕ
big_sigma1 x = bit_xor (bit_xor (rotr 6 x) (rotr 11 x)) (rotr 25 x)

unfoldable pub small_sigma0 : ℕ → ℕ
small_sigma0 x = bit_xor (bit_xor (rotr 7 x) (rotr 18 x)) (shr 3 x)

unfoldable pub small_sigma1 : ℕ → ℕ
small_sigma1 x = bit_xor (bit_xor (rotr 17 x) (rotr 19 x)) (shr 10 x)

-- The constants: of the first 64 primes, and of the first 8.
unfoldable pub round_constants : List ℕ
round_constants = map cube_root_bits (primes_from 310 2)

unfoldable pub initial_value : List ℕ
initial_value = map square_root_bits (primes_from 18 2)

-- `n` bytes, the highest first.
unfoldable pub big_endian : ℕ → ℕ → List ℕ
big_endian zero x = []
big_endian (suc n) x = (x / 256 ^ n % 256) ∷ big_endian n x

-- A mark, the fewest zeros that end 8 bytes before a block does, and the length in bits.
unfoldable pub pad : List ℕ → List ℕ
pad msg =
    let l = length msg in msg ++ (128 ∷ (replicate ((119 - l % 64) % 64) 0 ++ big_endian 8 (8 * l)))

-- `n` words of a message block.
unfoldable pub block_words : ℕ → List ℕ → List ℕ
block_words zero p = []
block_words (suc n) p =
    (get_or p 0 0 * 2 ^ 24 + get_or p 1 0 * 2 ^ 16 + get_or p 2 0 * 2 ^ 8 + get_or p 3 0)
    ∷ block_words n (drop 4 p)

-- `W_t` from the words before it.
unfoldable pub next_word : ℕ → List ℕ → ℕ
next_word t w = word (
    small_sigma1 (get_or w (t - 2) 0)
    + get_or w (t - 7) 0
    + small_sigma0 (get_or w (t - 15) 0)
    + get_or w (t - 16) 0)

-- `n` words more, from `W_t` on.
unfoldable pub grow : ℕ → ℕ → List ℕ → List ℕ
grow zero t w = w
grow (suc n) t w = grow n (t + 1) (w ++ (next_word t w ∷ []))

unfoldable pub schedule : List ℕ → List ℕ
schedule p = grow 48 16 (block_words 16 p)

-- One step of the loop over `t`, with `K_t` and `W_t`.
unfoldable pub step : ℕ → ℕ → Regs → Regs
step k w v =
    let t1 = v.h + big_sigma1 v.e + choose v.e v.f v.g + k + w in
    let t2 = big_sigma0 v.a + majority v.a v.b v.c in
    record {
      a = word (t1 + t2);
      b = v.a;
      c = v.b;
      d = v.c;
      e = word (v.d + t1);
      f = v.e;
      g = v.f;
      h = v.g;
    }

unfoldable pub steps : List ℕ → List ℕ → Regs → Regs
steps [] ws v = v
steps (k ∷ ks) [] v = v
steps (k ∷ ks) (w ∷ ws) v = steps ks ws (step k w v)

-- The working variables start as the hash value, and are added to it.
abbrev pub start : List ℕ → Regs
start hash = record {
  a = get_or hash 0 0;
  b = get_or hash 1 0;
  c = get_or hash 2 0;
  d = get_or hash 3 0;
  e = get_or hash 4 0;
  f = get_or hash 5 0;
  g = get_or hash 6 0;
  h = get_or hash 7 0;
}

abbrev pub add : Regs → Regs → List ℕ
add v u =
    word (v.a + u.a)
    ∷ word (v.b + u.b)
    ∷ word (v.c + u.c)
    ∷ word (v.d + u.d)
    ∷ word (v.e + u.e)
    ∷ word (v.f + u.f)
    ∷ word (v.g + u.g)
    ∷ word (v.h + u.h)
    ∷ []

unfoldable pub hash_block : List ℕ → List ℕ → List ℕ
hash_block hash p = let v = start hash in add (steps round_constants (schedule p) v) v

unfoldable pub hash_message : ℕ → List ℕ → List ℕ → List ℕ
hash_message zero hash p = hash
hash_message (suc n) hash p = hash_message n (hash_block hash (take 64 p)) (drop 64 p)

unfoldable pub all_big_endian : List ℕ → List ℕ
all_big_endian [] = []
all_big_endian (x ∷ xs) = big_endian 4 x ++ all_big_endian xs

unfoldable pub fips_sha256 : List ℕ → List ℕ
fips_sha256 msg =
    let padded = pad msg in all_big_endian (hash_message (length padded / 64) initial_value padded)
