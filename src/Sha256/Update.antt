-- ===== src/Sha256/Update.antt =====
-- `sha256_update` and `sha256_init` against the byte-wise specification.
use mathlib.Core.Path.{subst}
use dhruvaos.Base.{
  ℕ, zero, suc, ◌+◌, ◌≤◌, ◌<◌, ◌≡◌, refl, ap, ◌∙◌, inl, inr, List, [], ◌++◌, append_assoc, ◌⊎◌,
  arith, length, take, drop, length-take, length-drop, take-append-drop, leb, Bool-cases, u64,
}
use dhruvaos.Sha256.{Ctx, sha256_block, direct_blocks, put_all, sha256_update, top_up}
use dhruvaos.Sha256.Block.{compress-take}
use dhruvaos.Sha256.Progress.{
  Progress, absorb, absorb-append, absorb_room, absorb_short, absorb_full,
}
use dhruvaos.Sha256.Stream.{Holds, top_up-Took, put_all-Holds, total_len-put_all}

-- A block that is hashed where it stands leaves `buf` alone.
block-Holds :
    {ctx : Ctx} {s : Progress} (bytes : List ℕ)
    → Holds ctx s
    → s.pending ≡ []
    → 64 ≤ length bytes
    → Holds (sha256_block ctx bytes) (absorb s (take 64 bytes))
      × ((absorb s (take 64 bytes)).pending ≡ [])
unfolding sha256_block
block-Holds {ctx} {s} bytes v e h =
    let full =
      absorb_full s (take 64 bytes) (rw e (omega arith))
        (rw e (omega (arith, length-take 64 bytes))) in
    rw (full, e, compress-take) (ground arith, refl)

-- What is left when the whole blocks of the bytes are hashed.
record Blocks (ctx : Ctx) (s : Progress) (bytes : List ℕ) (out : Ctx × List ℕ) : Type 0 where
  front : List ℕ
  split : front ++ out.1 ≡ bytes
  holds : Holds out.0 (absorb s front)
  total : out.0.total_len ≡ ctx.total_len
  aligned : (absorb s front).pending ≡ []
  short : length out.1 < 64

no_block :
    {ctx : Ctx} {s : Progress} (bytes : List ℕ)
    → Holds ctx s
    → s.pending ≡ []
    → length bytes < 64
    → Blocks ctx s bytes (ctx, bytes)
no_block bytes v e h = record {
  front = [];
  split = refl;
  holds = unfold absorb in v;
  total = refl;
  aligned = unfold absorb in e;
  short = h;
}

next_block :
    {ctx : Ctx} {s : Progress} (bytes : List ℕ) {out : Ctx × List ℕ}
    → Blocks (sha256_block ctx bytes) (absorb s (take 64 bytes)) (drop 64 bytes) out
    → Blocks ctx s bytes out
next_block {ctx} {s} bytes {out} b = record {
  front = take 64 bytes ++ b.front;
  split =
      append_assoc (take 64 bytes) b.front out.1
      ∙ (ap (λ t. take 64 bytes ++ t) b.split ∙ take-append-drop 64 bytes);
  holds = rw absorb-append b.holds;
  total = b.total ∙ (unfold sha256_block in refl);
  aligned = rw absorb-append b.aligned;
  short = b.short;
}

direct_blocks-Blocks :
    (fuel : ℕ) {ctx : Ctx} {s : Progress} (bytes : List ℕ)
    → Holds ctx s
    → s.pending ≡ []
    → length bytes ≤ fuel
    → Blocks ctx s bytes (direct_blocks fuel ctx bytes)
unfolding direct_blocks
direct_blocks-Blocks zero bytes v e h = no_block bytes v e (omega arith)
direct_blocks-Blocks (suc fuel) {ctx} {s} bytes v e h = elim (Bool-cases (leb 64 (length bytes))) [
  | inl more ↦
      let enough : 64 ≤ length bytes = ground arith in
      let (holds, aligned) = block-Holds bytes v e enough in
      rw more (
        next_block bytes (
          direct_blocks-Blocks fuel (drop 64 bytes) holds aligned
            (omega (arith, length-drop 64 bytes))))
  | inr stop ↦ rw stop (no_block bytes v e (ground arith))
]

-- After the top-up the other bytes start a block, or there are none.
direct_blocks_after :
    {ctx : Ctx} {s : Progress} (bytes : List ℕ)
    → Holds ctx s
    → length s.pending < 64
    → (s.pending ≡ []) ⊎ (bytes ≡ [])
    → let (c, rest) = direct_blocks (length bytes) ctx bytes in
      Holds (put_all c rest) (absorb s bytes) × ((put_all c rest).total_len ≡ ctx.total_len)
direct_blocks_after {ctx} {s} bytes v room (inl e) =
    let b = direct_blocks-Blocks (length bytes) bytes v e (omega arith) in
    let out = direct_blocks (length bytes) ctx bytes in
    let none_left : length (absorb s b.front).pending ≡ 0 = rw b.aligned in
    let short : length (absorb s b.front).pending + length out.1 < 64 = omega (arith, b.short) in
    let held = put_all-Holds out.1 b.holds (omega arith) in
    (
      subst (λ xs. Holds (put_all out.0 out.1) (absorb s xs)) b.split
          (rw (absorb-append, absorb_short (absorb s b.front) out.1 short) held),
      total_len-put_all out.1 out.0 ∙ b.total,
    )
direct_blocks_after {ctx} {s} bytes v room (inr e) =
    rw e (unfold direct_blocks put_all absorb in (v, refl))

-- `sha256_update` takes its bytes as if they came one at a time, and counts them.
pub update_absorbs :
    {ctx : Ctx} {s : Progress} (bytes : List ℕ)
    → Holds ctx s
    → length s.pending < 64
    → Holds (sha256_update ctx bytes) (absorb s bytes)
      × ((sha256_update ctx bytes).total_len ≡ u64 (ctx.total_len + length bytes))
unfolding sha256_update
update_absorbs {ctx} {s} bytes v room =
    let counted : Ctx = record ctx { total_len = u64 (ctx.total_len + length bytes) } in
    let v' : Holds counted s = record {
      words = v.words;
      pending = v.pending;
      count = v.count;
      size = v.size;
    } in
    let t = top_up-Took v' bytes room in
    let top = top_up counted bytes in
    let (holds, total) = direct_blocks_after top.1 t.holds (absorb_room s t.front room) t.aligned in
    (
      subst (λ xs. Holds (sha256_update ctx bytes) (absorb s xs)) t.split (rw absorb-append holds),
      total ∙ t.total,
    )
