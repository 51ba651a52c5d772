-- ===== src/Sha256/Spec.antt =====
-- SHA-256 as FIPS 180-4 describes it, over the compression function of the code: pad the message,
-- cut it into 64-byte blocks, and compress them one after another.
use dhruvaos.Base.{
  ℕ, zero, suc, ◌-◌, ◌*◌, ◌/◌, ◌%◌, ◌≡◌, List, ◌∷◌, ◌++◌, arith, length, take, drop, replicate, u64,
  length-append, length-replicate,
}
use dhruvaos.Sha256.{compress, initial_h, length_bytes, out_bytes}

-- The state after `n` blocks of `xs`.
unfoldable pub hash_blocks : ℕ → List ℕ → List ℕ → List ℕ
hash_blocks zero h xs = h
hash_blocks (suc n) h xs = hash_blocks n (compress h (take 64 xs)) (drop 64 xs)

-- How many zero bytes stand between the mark 0x80 and the length of a message of `n` bytes.
abbrev pub zeros : ℕ → ℕ
zeros n = (119 - n % 64) % 64

-- What padding appends to a message of `n` bytes.
abbrev pub padding : ℕ → List ℕ
padding n = 0x80 ∷ (replicate (zeros n) 0 ++ length_bytes (u64 (n * 8)))

unfoldable pub sha256 : List ℕ → List ℕ
sha256 msg =
    let padded = msg ++ padding (length msg) in
    out_bytes (hash_blocks (length padded / 64) initial_h padded)

-- A padded message is whole blocks.
pub padded_size : (msg : List ℕ) → length (msg ++ padding (length msg)) % 64 ≡ 0
padded_size msg = omega (
  arith,
  length-append msg (padding (length msg)),
  length-append (replicate (zeros (length msg)) 0) (length_bytes (u64 (length msg * 8))),
  length-replicate {A = ℕ} (zeros (length msg)) 0,
)
