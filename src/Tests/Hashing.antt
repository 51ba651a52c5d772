-- ===== src/Tests/Hashing.antt =====
-- Tests of boot/stage0/sha256.c and of `crc32_bytes`.
use dhruvaos.Base.{◌≡◌, ◌≢◌, refl, [], ◌∷◌, some, arith, set}
use dhruvaos.Sha256.{
  sha256_init, sha256_finalize, sha256_update, sha256_block, compress, load_words, load_word,
  extend_words, extend_word, rounds, round, rotr32, fill, direct_blocks, put_all, flush, top_up,
  pad_zeros, finish,
}
use dhruvaos.Sha256.Digest.{update_all}
use dhruvaos.Sha256.Fips.{fips_sha256}
use dhruvaos.Sha256.Fips.Digest.{digest-fips}
use dhruvaos.Crc32.{crc32_bytes, crc_bytes, crc_bits, crc_bit}
use dhruvaos.Crc32.Detect.{crc32_bytes_detects}
use dhruvaos.Tests.{stack_ctx, payload, payload_sha256, all_bytes-All}

digest-fips_example :
    sha256_finalize (update_all (sha256_init stack_ctx) ((1 ∷ []) ∷ (2 ∷ 3 ∷ 4 ∷ []) ∷ []))
    ≡ some (fips_sha256 payload)
digest-fips_example =
    digest-fips stack_ctx ((1 ∷ []) ∷ (2 ∷ 3 ∷ 4 ∷ []) ∷ []) refl (all_bytes-All payload refl)

-- CRC-32's check value, of the digits 1 to 9.
check_value : crc32_bytes (49 ∷ 50 ∷ 51 ∷ 52 ∷ 53 ∷ 54 ∷ 55 ∷ 56 ∷ 57 ∷ []) 9 ≡ 0xCBF43926
unfolding crc32_bytes crc_bytes crc_bits crc_bit
check_value = refl

crc32_bytes_detects_example : crc32_bytes (set payload 2 7) 4 ≢ crc32_bytes payload 4
crc32_bytes_detects_example =
    crc32_bytes_detects payload 4 2 7 (all_bytes-All payload refl) (omega arith) (omega arith)
      (omega arith) (omega arith)

-- The payload's digest, as other tools give it, from the code and from the specification.
known_digest :
    sha256_finalize (update_all (sha256_init stack_ctx) (payload ∷ [])) ≡ some payload_sha256
unfolding sha256_finalize sha256_init sha256_update sha256_block compress load_words load_word
    extend_words extend_word rounds round rotr32 fill direct_blocks put_all flush top_up pad_zeros
    finish update_all
known_digest = refl
