-- ===== src/Crc32.antt =====
-- The CRC-32 of boot/stage0/stage0_main.c (`crc32_bytes`), bit by bit, and what it detects.
pub mod Step
pub mod Detect
use dhruvaos.Base.{ℕ, zero, suc, bit_and, bit_xor, List, [], ◌∷◌, ◌==◌, if◌then◌else◌, ◌>>◌}

abbrev pub polynomial : ℕ
polynomial = 0xEDB88320

-- The body of the inner loop.
unfoldable pub crc_bit : ℕ → ℕ
crc_bit crc = if bit_and crc 1 == 0 then crc >> 1 else bit_xor (crc >> 1) polynomial

-- The inner loop, with `n` rounds to go.
unfoldable pub crc_bits : ℕ → ℕ → ℕ
crc_bits zero crc = crc
crc_bits (suc n) crc = crc_bits n (crc_bit crc)

-- The outer loop over `data[i..len)`, with `left` rounds to go; it stops where the bytes end.
unfoldable pub crc_bytes : ℕ → List ℕ → ℕ → ℕ
crc_bytes zero bytes crc = crc
crc_bytes (suc left) [] crc = crc
crc_bytes (suc left) (b ∷ bytes) crc = crc_bytes left bytes (crc_bits 8 (bit_xor crc b))

unfoldable pub crc32_bytes : List ℕ → ℕ → ℕ
crc32_bytes bytes len = bit_xor (crc_bytes len bytes 0xFFFFFFFF) 0xFFFFFFFF
