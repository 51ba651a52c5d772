-- ===== src/Sha256/Fips/Digest.antt =====
-- The streaming interface of boot/stage0/sha256.c beside FIPS 180-4.
use dhruvaos.Base.{
  ℕ, zero, suc, ◌*◌, ◌/◌, ◌≡◌, refl, ap, ◌∙◌, some, List, ◌++◌, arith, IsByte, IsWord, u64, length,
  take, drop, replicate, All, All-replicate, All-append, All-take, All-drop,
}
use dhruvaos.Sha256.{Ctx, initial_h, sha256_init, sha256_finalize, length_bytes}
use dhruvaos.Sha256.Spec.{hash_blocks, zeros, padding, sha256}
use dhruvaos.Sha256.Digest.{update_all, flatten, digest-sha256}
use dhruvaos.Sha256.Fips.{pad, hash_block, hash_message, fips_sha256}
use dhruvaos.Sha256.Fips.Words.{initial_value_lem, length_bytes-big_endian, out_bytes-big_endian}
use dhruvaos.Sha256.Fips.Rounds.{compress-hash_block}

hash_block-IsWord : (hash p : List ℕ) → All IsWord (hash_block hash p)
unfolding hash_block
hash_block-IsWord hash p = ground arith

hash_blocks-hash_message :
    (n : ℕ) (hash p : List ℕ)
    → All IsWord hash
    → All IsByte p
    → hash_blocks n hash p ≡ hash_message n hash p
unfolding hash_blocks hash_message
hash_blocks-hash_message zero hash p words bytes = refl
hash_blocks-hash_message (suc n) hash p words bytes =
    rw (compress-hash_block hash (take 64 p) words (All-take IsByte 64 p bytes)) (
      hash_blocks-hash_message n (hash_block hash (take 64 p)) (drop 64 p)
        (hash_block-IsWord hash (take 64 p)) (All-drop IsByte 64 p bytes))

initial_h-IsWord : All IsWord initial_h
initial_h-IsWord = ground arith

pad_lem : (msg : List ℕ) → msg ++ padding (length msg) ≡ pad msg
unfolding pad
pad_lem msg = rw (length_bytes-big_endian (length msg))

length_bytes-IsByte : (n : ℕ) → All IsByte (length_bytes n)
length_bytes-IsByte n = ground arith

padded-IsByte : (msg : List ℕ) → All IsByte msg → All IsByte (msg ++ padding (length msg))
padded-IsByte msg h =
    let count = length msg in
    All-append IsByte msg (padding count) h (
      omega arith,
      All-append IsByte (replicate (zeros count) 0) (length_bytes (u64 (count * 8)))
          (All-replicate IsByte (zeros count) 0 (omega arith))
          (length_bytes-IsByte (u64 (count * 8))),
    )

pub sha256-fips_sha256 : (msg : List ℕ) → All IsByte msg → sha256 msg ≡ fips_sha256 msg
unfolding sha256 fips_sha256
sha256-fips_sha256 msg bytes =
    let padded = msg ++ padding (length msg) in
    rw (
      hash_blocks-hash_message (length padded / 64) initial_h padded initial_h-IsWord
          (padded-IsByte msg bytes),
      out_bytes-big_endian,
      initial_value_lem,
      pad_lem,
    )

-- From any context with a 64-byte buffer, hashing the pieces of a message of bytes in order
-- returns, and returns the message's SHA-256 as FIPS 180-4 describes it, word by word,
-- independently of the code: the constants are computed from the roots of the first primes, `rotr`
-- is a rotation, the message schedule is a growing list, and the padded message goes through the 64
-- steps block by block.
pub digest-fips :
    (ctx : Ctx) (chunks : List (List ℕ))
    → length ctx.buf ≡ 64
    → All IsByte (flatten chunks)
    → sha256_finalize (update_all (sha256_init ctx) chunks) ≡ some (fips_sha256 (flatten chunks))
digest-fips ctx chunks h bytes =
    digest-sha256 ctx chunks h ∙ ap some (sha256-fips_sha256 (flatten chunks) bytes)
