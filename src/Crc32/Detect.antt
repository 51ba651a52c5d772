-- ===== src/Crc32/Detect.antt =====
-- A changed byte changes the CRC.
use dhruvaos.Base.{
  ℕ, zero, suc, ◌<◌, ◌≡◌, ◌≢◌, refl, bit_xor, List, [], ◌∷◌, arith, length, get_or, set, take, All,
  IsByte, IsWord,
}
use dhruvaos.Base.Bits.{bit_xor-lt, bit_xor_right_cancel, bit_xor_left_cancel}
use dhruvaos.Crc32.{crc_bits, crc_bytes, crc32_bytes}
use dhruvaos.Crc32.Step.{crc_bits-IsWord, crc_bits_injective}

bit_xor-IsWord : (c b : ℕ) → IsWord c → IsByte b → IsWord (bit_xor c b)
bit_xor-IsWord c b hc hb = bit_xor-lt 32 c b hc (omega arith)

crc_byte-IsWord : (c b : ℕ) → IsWord c → IsByte b → IsWord (crc_bits 8 (bit_xor c b))
crc_byte-IsWord c b hc hb = crc_bits-IsWord 8 (bit_xor c b) (bit_xor-IsWord c b hc hb)

crc_bytes-IsWord :
    (n : ℕ) (bytes : List ℕ) (c : ℕ) → All IsByte bytes → IsWord c → IsWord (crc_bytes n bytes c)
unfolding crc_bytes
crc_bytes-IsWord zero bytes c hs h = h
crc_bytes-IsWord (suc n) [] c hs h = h
crc_bytes-IsWord (suc n) (b ∷ bytes) c (hb, hs) h =
    crc_bytes-IsWord n bytes (crc_bits 8 (bit_xor c b)) hs (crc_byte-IsWord c b h hb)

-- The same bytes keep two states apart.
crc_bytes_injective :
    (n : ℕ) (bytes : List ℕ) (c d : ℕ)
    → All IsByte bytes
    → IsWord c
    → IsWord d
    → crc_bytes n bytes c ≡ crc_bytes n bytes d
    → c ≡ d
unfolding crc_bytes
crc_bytes_injective zero bytes c d hs hc hd e = e
crc_bytes_injective (suc n) [] c d hs hc hd e = e
crc_bytes_injective (suc n) (b ∷ bytes) c d (hb, hs) hc hd e = bit_xor_right_cancel c d b (
    crc_bits_injective 8 (bit_xor c b) (bit_xor d b) (bit_xor-IsWord c b hc hb)
      (bit_xor-IsWord d b hd hb)
      (crc_bytes_injective n bytes (crc_bits 8 (bit_xor c b)) (crc_bits 8 (bit_xor d b)) hs
        (crc_byte-IsWord c b hc hb) (crc_byte-IsWord d b hd hb) e))

crc_bytes-set :
    (n : ℕ) (bytes : List ℕ) (i v c : ℕ)
    → All IsByte bytes
    → IsByte v
    → IsWord c
    → i < n
    → i < length bytes
    → crc_bytes n (set bytes i v) c ≡ crc_bytes n bytes c
    → v ≡ get_or bytes i 0
unfolding crc_bytes
crc_bytes-set zero bytes i v c hs hv hc lt len e = absurd (omega arith)
crc_bytes-set (suc n) [] i v c hs hv hc lt len e = absurd (omega arith)
crc_bytes-set (suc n) (b ∷ bytes) zero v c (hb, hs) hv hc lt len e = bit_xor_left_cancel v b c (
    crc_bits_injective 8 (bit_xor c v) (bit_xor c b) (bit_xor-IsWord c v hc hv)
      (bit_xor-IsWord c b hc hb)
      (crc_bytes_injective n bytes (crc_bits 8 (bit_xor c v)) (crc_bits 8 (bit_xor c b)) hs
        (crc_byte-IsWord c v hc hv) (crc_byte-IsWord c b hc hb) e))
crc_bytes-set (suc n) (b ∷ bytes) (suc i) v c (hb, hs) hv hc lt len e =
    crc_bytes-set n bytes i v (crc_bits 8 (bit_xor c b)) hs hv (crc_byte-IsWord c b hc hb)
      (omega arith) (omega arith) e

-- Replacing one of the first `len` bytes by another byte changes the CRC of those bytes.
pub crc32_bytes_detects :
    (bytes : List ℕ) (len i v : ℕ)
    → All IsByte bytes
    → IsByte v
    → i < len
    → i < length bytes
    → v ≢ get_or bytes i 0
    → crc32_bytes (set bytes i v) len ≢ crc32_bytes bytes len
unfolding crc32_bytes
crc32_bytes_detects bytes len i v hs hv lt inside ne e = ne (
    crc_bytes-set len bytes i v 0xFFFFFFFF hs hv (omega arith) lt inside (
      bit_xor_right_cancel (crc_bytes len (set bytes i v) 0xFFFFFFFF)
        (crc_bytes len bytes 0xFFFFFFFF) 0xFFFFFFFF e))

crc_bytes-take :
    (n : ℕ) (bytes : List ℕ) (c : ℕ) → crc_bytes n (take n bytes) c ≡ crc_bytes n bytes c
unfolding crc_bytes
crc_bytes-take zero bytes c = refl
crc_bytes-take (suc n) [] c = refl
crc_bytes-take (suc n) (b ∷ bytes) c = crc_bytes-take n bytes (crc_bits 8 (bit_xor c b))

-- Bytes from `len` on do not count.
pub crc32_bytes-take :
    (bytes : List ℕ) (len : ℕ) → crc32_bytes (take len bytes) len ≡ crc32_bytes bytes len
unfolding crc32_bytes
crc32_bytes-take bytes len = rw (crc_bytes-take len bytes 0xFFFFFFFF)

pub crc32_bytes-IsWord :
    (bytes : List ℕ) (len : ℕ) → All IsByte bytes → IsWord (crc32_bytes bytes len)
unfolding crc32_bytes
crc32_bytes-IsWord bytes len hs =
    bit_xor-lt 32 (crc_bytes len bytes 0xFFFFFFFF) 0xFFFFFFFF
      (crc_bytes-IsWord len bytes 0xFFFFFFFF hs (omega arith)) (omega arith)
