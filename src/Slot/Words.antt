-- ===== src/Slot/Words.antt =====
-- Little-endian words in a buffer: a word that is written reads back, and nothing else changes.
use dhruvaos.Base.{ℕ, ◌+◌, ◌*◌, ◌≡◌, ◌∙◌, bit_or, List, arith, IsByte, IsWord, u8, ◌<<◌, ◌>>◌}
use dhruvaos.Base.Bits.{bit_or_fields, bit_or_comm}
use dhruvaos.Slot.{at, read_u32_le}

-- Four bytes as a sum.
pub word_of_bytes :
    (a b c d : ℕ)
    → IsByte a
    → IsByte b
    → IsByte c
    → bit_or (bit_or (bit_or a (b << 8)) (c << 16)) (d << 24)
      ≡ a + b * 256 + c * 65536 + d * 16777216
word_of_bytes a b c d ha hb hc =
    rw
      (
        bit_or_comm a (b << 8),
        bit_or_fields 8 b a ha,
        bit_or_comm (b * 256 + a) (c << 16),
        bit_or_fields 16 c (b * 256 + a) (omega arith),
        bit_or_comm (c * 65536 + (b * 256 + a)) (d << 24),
        bit_or_fields 24 d (c * 65536 + (b * 256 + a)) (omega arith),
      )
      (omega arith)

pub read_u32_le-sum :
    (buf : List ℕ) (off : ℕ)
    → IsByte (at buf off)
    → IsByte (at buf (off + 1))
    → IsByte (at buf (off + 2))
    → read_u32_le buf off
      ≡ at buf off + at buf (off + 1) * 256 + at buf (off + 2) * 65536 + at buf (off + 3) * 16777216
unfolding read_u32_le
read_u32_le-sum buf off =
    word_of_bytes (at buf off) (at buf (off + 1)) (at buf (off + 2)) (at buf (off + 3))

-- The bytes of a word put together again.
pub word_bytes :
    (v : ℕ)
    → IsWord v
    → bit_or (bit_or (bit_or (u8 v) (u8 (v >> 8) << 8)) (u8 (v >> 16) << 16)) (u8 (v >> 24) << 24)
      ≡ v
word_bytes v h =
    word_of_bytes (u8 v) (u8 (v >> 8)) (u8 (v >> 16)) (u8 (v >> 24)) (omega arith) (omega arith)
      (omega arith)
    ∙ omega arith
