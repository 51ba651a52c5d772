-- ===== src/Sha256.antt =====
-- SHA-256 as boot/stage0/sha256.c computes it: one block (`sha256_block`), and the streaming
-- interface `sha256_init`, `sha256_update`, `sha256_finalize`. A buffer that C passes as a pointer
-- and a length is the list of the bytes that are left to read. Bytes are below 256 and words below
-- 2 ^ 32; each sum of words is cut to 32 bits where C cuts it.
pub mod Roots
pub mod Spec
pub mod Block
pub mod Progress
pub mod Stream
pub mod Update
pub mod Digest
pub mod Fips
use dhruvaos.Base.{
  ℕ, zero, suc, ◌+◌, ◌-◌, ◌*◌, ◌/◌, ◌%◌, ◌^◌, bit_and, bit_or, bit_xor, Option, none, some, List,
  [], ◌∷◌, ◌++◌, length, get_or, set, drop, replicate, leb, ltb, ◌==◌, if◌then◌else◌, u8, u32, u64,
  ◌<<◌, ◌>>◌,
}

-- `K`, the 64 round constants.
abbrev pub k_table : List ℕ
k_table =
    0x428a2f98 ∷ 0x71374491 ∷ 0xb5c0fbcf ∷ 0xe9b5dba5 ∷ 0x3956c25b ∷ 0x59f111f1 ∷ 0x923f82a4
    ∷ 0xab1c5ed5 ∷ 0xd807aa98 ∷ 0x12835b01 ∷ 0x243185be ∷ 0x550c7dc3 ∷ 0x72be5d74 ∷ 0x80deb1fe
    ∷ 0x9bdc06a7 ∷ 0xc19bf174 ∷ 0xe49b69c1 ∷ 0xefbe4786 ∷ 0x0fc19dc6 ∷ 0x240ca1cc ∷ 0x2de92c6f
    ∷ 0x4a7484aa ∷ 0x5cb0a9dc ∷ 0x76f988da ∷ 0x983e5152 ∷ 0xa831c66d ∷ 0xb00327c8 ∷ 0xbf597fc7
    ∷ 0xc6e00bf3 ∷ 0xd5a79147 ∷ 0x06ca6351 ∷ 0x14292967 ∷ 0x27b70a85 ∷ 0x2e1b2138 ∷ 0x4d2c6dfc
    ∷ 0x53380d13 ∷ 0x650a7354 ∷ 0x766a0abb ∷ 0x81c2c92e ∷ 0x92722c85 ∷ 0xa2bfe8a1 ∷ 0xa81a664b
    ∷ 0xc24b8b70 ∷ 0xc76c51a3 ∷ 0xd192e819 ∷ 0xd6990624 ∷ 0xf40e3585 ∷ 0x106aa070 ∷ 0x19a4c116
    ∷ 0x1e376c08 ∷ 0x2748774c ∷ 0x34b0bcb5 ∷ 0x391c0cb3 ∷ 0x4ed8aa4a ∷ 0x5b9cca4f ∷ 0x682e6ff3
    ∷ 0x748f82ee ∷ 0x78a5636f ∷ 0x84c87814 ∷ 0x8cc70208 ∷ 0x90befffa ∷ 0xa4506ceb ∷ 0xbef9a3f7
    ∷ 0xc67178f2 ∷ []

-- `struct sha256_ctx`: `h` has 8 words, `buf` 64 bytes.
pub record Ctx : Type 0 where
  pub h : List ℕ
  pub buf : List ℕ
  pub buf_len : ℕ
  pub total_len : ℕ

-- An array element; the reads below stay inside their arrays.
abbrev pub at : List ℕ → ℕ → ℕ
at xs i = get_or xs i 0

unfoldable pub rotr32 : ℕ → ℕ → ℕ
rotr32 x n = bit_or (x >> n) (u32 (x << (32 - n)))

-- `w[i]` of the first loop: four bytes of the block, the first one highest.
unfoldable pub load_word : List ℕ → ℕ → ℕ
load_word p i =
    bit_or (bit_or (bit_or (at p (i * 4) << 24) (at p (i * 4 + 1) << 16)) (at p (i * 4 + 2) << 8))
      (at p (i * 4 + 3))

-- The first loop, from index `i` with `left` rounds to go.
unfoldable pub load_words : List ℕ → ℕ → ℕ → List ℕ → List ℕ
load_words p zero i w = w
load_words p (suc left) i w = load_words p left (i + 1) (set w i (load_word p i))

-- `w[i]` of the second loop.
unfoldable pub extend_word : List ℕ → ℕ → ℕ
extend_word w i =
    let x = at w (i - 15) in
    let y = at w (i - 2) in
    let s0 = bit_xor (bit_xor (rotr32 x 7) (rotr32 x 18)) (x >> 3) in
    let s1 = bit_xor (bit_xor (rotr32 y 17) (rotr32 y 19)) (y >> 10) in
    u32 (at w (i - 16) + s0 + at w (i - 7) + s1)

-- The second loop.
unfoldable pub extend_words : ℕ → ℕ → List ℕ → List ℕ
extend_words zero i w = w
extend_words (suc left) i w = extend_words left (i + 1) (set w i (extend_word w i))

-- The working variables.
pub record Regs : Type 0 where
  pub a : ℕ
  pub b : ℕ
  pub c : ℕ
  pub d : ℕ
  pub e : ℕ
  pub f : ℕ
  pub g : ℕ
  pub h : ℕ

-- One round of the third loop, with `K[i]` and `w[i]`.
unfoldable pub round : ℕ → ℕ → Regs → Regs
round ki wi r =
    let s1 = bit_xor (bit_xor (rotr32 r.e 6) (rotr32 r.e 11)) (rotr32 r.e 25) in
    let ch = bit_xor (bit_and r.e r.f) (bit_and (2 ^ 32 - 1 - r.e) r.g) in
    let temp1 = u32 (r.h + s1 + ch + ki + wi) in
    let s0 = bit_xor (bit_xor (rotr32 r.a 2) (rotr32 r.a 13)) (rotr32 r.a 22) in
    let maj = bit_xor (bit_xor (bit_and r.a r.b) (bit_and r.a r.c)) (bit_and r.b r.c) in
    let temp2 = u32 (s0 + maj) in
    record {
      a = u32 (temp1 + temp2);
      b = r.a;
      c = r.b;
      d = r.c;
      e = u32 (r.d + temp1);
      f = r.e;
      g = r.f;
      h = r.g;
    }

unfoldable pub rounds : List ℕ → ℕ → ℕ → Regs → Regs
rounds w zero i r = r
rounds w (suc left) i r = rounds w left (i + 1) (round (at k_table i) (at w i) r)

-- The loads of `a` to `h` from `ctx->h`, and the additions back.
abbrev pub to_regs : List ℕ → Regs
to_regs h = record {
  a = at h 0;
  b = at h 1;
  c = at h 2;
  d = at h 3;
  e = at h 4;
  f = at h 5;
  g = at h 6;
  h = at h 7;
}

abbrev pub add_regs : List ℕ → Regs → List ℕ
add_regs h r =
    u32 (at h 0 + r.a)
    ∷ u32 (at h 1 + r.b)
    ∷ u32 (at h 2 + r.c)
    ∷ u32 (at h 3 + r.d)
    ∷ u32 (at h 4 + r.e)
    ∷ u32 (at h 5 + r.f)
    ∷ u32 (at h 6 + r.g)
    ∷ u32 (at h 7 + r.h)
    ∷ []

-- What `sha256_block` makes of `ctx->h`. C leaves `w` unset at first, and reads no unset word.
unfoldable pub compress : List ℕ → List ℕ → List ℕ
compress h p =
    let w = extend_words 48 16 (load_words p 16 0 (replicate 64 0)) in
    add_regs h (rounds w 64 0 (to_regs h))

unfoldable pub sha256_block : Ctx → List ℕ → Ctx
sha256_block ctx p = record ctx { h = compress ctx.h p }

abbrev pub initial_h : List ℕ
initial_h =
    0x6a09e667 ∷ 0xbb67ae85 ∷ 0x3c6ef372 ∷ 0xa54ff53a ∷ 0x510e527f ∷ 0x9b05688c ∷ 0x1f83d9ab
    ∷ 0x5be0cd19 ∷ []

-- `sha256_init` leaves `buf` as it was.
unfoldable pub sha256_init : Ctx → Ctx
sha256_init ctx = record ctx { h = initial_h; buf_len = 0; total_len = 0 }

-- `ctx->buf[ctx->buf_len] = b; ctx->buf_len = ctx->buf_len + 1;`
abbrev pub put : Ctx → ℕ → Ctx
put ctx b = record ctx { buf = set ctx.buf ctx.buf_len b; buf_len = ctx.buf_len + 1 }

-- `while (i < len && ctx->buf_len < 64)`: the context and the bytes that are left.
unfoldable pub fill : Ctx → List ℕ → Ctx × List ℕ
fill ctx [] = (ctx, [])
fill ctx (b ∷ bs) = if ltb ctx.buf_len 64 then fill (put ctx b) bs else (ctx, b ∷ bs)

-- `while (len - i >= 64)`, on fuel; each round takes 64 bytes, so the length is enough.
unfoldable pub direct_blocks : ℕ → Ctx → List ℕ → Ctx × List ℕ
direct_blocks zero ctx bytes = (ctx, bytes)
direct_blocks (suc fuel) ctx bytes =
    let rest = direct_blocks fuel (sha256_block ctx bytes) (drop 64 bytes) in
    if leb 64 (length bytes) then rest else (ctx, bytes)

-- The last loop of `sha256_update`.
unfoldable pub put_all : Ctx → List ℕ → Ctx
put_all ctx [] = ctx
put_all ctx (b ∷ bs) = put_all (put ctx b) bs

-- `if (ctx->buf_len == 64) { sha256_block(ctx, ctx->buf); ctx->buf_len = 0; }`
unfoldable pub flush : Ctx → Ctx
flush ctx = if ctx.buf_len == 64 then record (sha256_block ctx ctx.buf) { buf_len = 0 } else ctx

-- `if (ctx->buf_len != 0) { … }`
unfoldable pub top_up : Ctx → List ℕ → Ctx × List ℕ
top_up ctx bytes =
    if ctx.buf_len == 0 then (ctx, bytes) else let (c, rest) = fill ctx bytes in (flush c, rest)

unfoldable pub sha256_update : Ctx → List ℕ → Ctx
sha256_update ctx bytes =
    let counted = record ctx { total_len = u64 (ctx.total_len + length bytes) } in
    let (topped, rest) = top_up counted bytes in
    let (blocks, tail) = direct_blocks (length rest) topped rest in put_all blocks tail

-- `while (ctx->buf_len != 56) sha256_update(ctx, &zero, 1);`, on fuel; `none` if it runs out.
unfoldable pub pad_zeros : ℕ → Ctx → Option Ctx
pad_zeros zero ctx = none
pad_zeros (suc fuel) ctx =
    let rest = pad_zeros fuel (sha256_update ctx (0 ∷ [])) in
    if ctx.buf_len == 56 then some ctx else rest

-- `lenbuf[i] = (unsigned char)(bit_len >> ((7 - i) * 8))`
abbrev pub length_bytes : ℕ → List ℕ
length_bytes n =
    u8 (n >> 56)
    ∷ u8 (n >> 48)
    ∷ u8 (n >> 40)
    ∷ u8 (n >> 32)
    ∷ u8 (n >> 24)
    ∷ u8 (n >> 16)
    ∷ u8 (n >> 8)
    ∷ u8 (n >> 0)
    ∷ []

-- `out`, big-endian.
abbrev pub out_bytes : List ℕ → List ℕ
out_bytes [] = []
out_bytes (x ∷ xs) = u8 (x >> 24) ∷ u8 (x >> 16) ∷ u8 (x >> 8) ∷ u8 x ∷ out_bytes xs

-- After the padding the 8 length bytes fill the block, which is hashed.
unfoldable pub finish : ℕ → Ctx → List ℕ
finish bit_len ctx =
    let full = put_all ctx (length_bytes bit_len) in out_bytes (sha256_block full full.buf).h

-- 64 rounds of padding are always enough.
unfoldable pub sha256_finalize : Ctx → Option (List ℕ)
sha256_finalize ctx =
    let bit_len = u64 (ctx.total_len * 8) in
    elim (pad_zeros 64 (sha256_update ctx (0x80 ∷ []))) [
      | none ↦ none
      | some c ↦ some (finish bit_len c)
    ]
