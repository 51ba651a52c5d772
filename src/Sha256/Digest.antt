-- ===== src/Sha256/Digest.antt =====
-- The digest: `sha256_finalize` after any sequence of `sha256_update` calls.
use mathlib.Core.Path.{subst}
use dhruvaos.Base.{
  ℕ, zero, suc, ◌+◌, ◌*◌, ◌/◌, ◌%◌, ◌^◌, ◌<◌, ◌≡◌, refl, ap, ◌∙◌, true, false, Option, some, List,
  [], ◌∷◌, ◌++◌, arith, length, take, drop, replicate, length-append, length-take, length-drop,
  take_all, take-append-drop, ◌==◌, u64,
}
use dhruvaos.Sha256.{
  Ctx, compress, initial_h, sha256_block, sha256_init, sha256_update, pad_zeros, length_bytes,
  out_bytes, finish, sha256_finalize,
}
use dhruvaos.Sha256.Spec.{hash_blocks, zeros, padding, sha256, padded_size}
use dhruvaos.Sha256.Progress.{
  Progress, absorb, absorb-append, absorb_room, absorb_byte_pending, absorb_pending, absorb_full,
}
use dhruvaos.Sha256.Stream.{Holds, put_all-Holds}
use dhruvaos.Sha256.Update.{update_absorbs}

-- Whole blocks, one at a time or byte by byte.
absorb-hash_blocks :
    (n : ℕ) (h xs : List ℕ)
    → length xs ≡ n * 64
    → absorb (record { words = h; pending = [] }) xs
      ≡ record { words = hash_blocks n h xs; pending = [] }
unfolding hash_blocks
absorb-hash_blocks zero h [] e = unfold absorb in refl
absorb-hash_blocks zero h (x ∷ xs) e = absurd (omega arith)
absorb-hash_blocks (suc n) h xs e =
    subst (λ ys. absorb start ys ≡ record { words = hash_blocks (suc n) h xs; pending = [] })
      (take-append-drop 64 xs)
      (rw
        (
          absorb-append,
          absorb_full start (take 64 xs) (omega arith) (omega (arith, length-take 64 xs)),
        )
        (absorb-hash_blocks n (compress h (take 64 xs)) (drop 64 xs)
          (omega (arith, length-drop 64 xs))))
  where
    start : Progress
    start = record { words = h; pending = [] }

-- What the padding loop returns.
record Padded (s : Progress) (k : ℕ) (result : Option Ctx) : Type 0 where
  ctx : Ctx
  returns : result ≡ some ctx
  holds : Holds ctx (absorb s (replicate k 0))
  size : length (absorb s (replicate k 0)).pending ≡ 56

Padded-suc :
    {s : Progress} {k : ℕ} {result : Option Ctx}
    → Padded (absorb s (0 ∷ [])) k result
    → Padded s (suc k) result
unfolding absorb
Padded-suc p = record { ctx = p.ctx; returns = p.returns; holds = p.holds; size = p.size }

-- Enough fuel, and the loop appends zeros up to byte 56 of a block.
pad_zeros-Padded :
    (fuel k : ℕ) {ctx : Ctx} {s : Progress}
    → Holds ctx s
    → length s.pending < 64
    → (length s.pending + k) % 64 ≡ 56
    → k < 64
    → k < fuel
    → Padded s k (pad_zeros fuel ctx)
unfolding pad_zeros
pad_zeros-Padded zero k v room e small h = absurd (omega arith)
pad_zeros-Padded (suc fuel) zero {ctx} {s} v room e small h =
    let at_56 : (ctx.buf_len == 56) ≡ true = ground (arith, v.count) in
    rw at_56 (record {
      ctx = ctx;
      returns = refl;
      holds = unfold absorb in v;
      size = unfold absorb in omega (arith, v.count);
    })
pad_zeros-Padded (suc fuel) (suc k) {ctx} {s} v room e small h =
    let (holds, _) = update_absorbs (0 ∷ []) v room in
    let next = absorb s (0 ∷ []) in
    let more : (ctx.buf_len == 56) ≡ false = ground (arith, v.count) in
    let rest =
      pad_zeros-Padded fuel k holds (absorb_room s (0 ∷ []) room)
        (omega (arith, absorb_byte_pending s 0 room)) (omega arith) (omega arith) in
    rw more (Padded-suc rest)

-- A full buffer is hashed as the bytes that it holds.
compress_buf :
    {ctx : Ctx} {s : Progress}
    → Holds ctx s
    → length s.pending ≡ 64
    → compress ctx.h ctx.buf ≡ compress s.words s.pending
compress_buf {ctx} v e = ground (arith, take_all ctx.buf_len ctx.buf)

finish_lem :
    {ctx : Ctx} {s : Progress} (bit_len : ℕ)
    → Holds ctx s
    → length s.pending ≡ 56
    → finish bit_len ctx ≡ out_bytes (absorb s (length_bytes bit_len)).words
unfolding finish sha256_block
finish_lem {ctx} {s} bit_len v e =
    let bytes = length_bytes bit_len in
    let full = put_all-Holds bytes v (omega arith) in
    rw (absorb_full s bytes (omega arith) (omega arith))
      (ap out_bytes (compress_buf full (omega (arith, length-append s.pending bytes))))

-- Any number of calls of `sha256_update`, one for each piece of the message.
unfoldable pub update_all : Ctx → List (List ℕ) → Ctx
update_all ctx [] = ctx
update_all ctx (bytes ∷ rest) = update_all (sha256_update ctx bytes) rest

abbrev pub flatten : List (List ℕ) → List ℕ
flatten [] = []
flatten (xs ∷ rest) = xs ++ flatten rest

abbrev iv : Progress
iv = record { words = initial_h; pending = [] }

module _ (msg : List ℕ) where
  -- The padding, in the three steps in which it is appended.
  absorb-padding :
      absorb iv (msg ++ padding (length msg))
      ≡ absorb
          (absorb (absorb (absorb iv msg) (0x80 ∷ [])) (replicate (zeros (length msg)) 0))
          (length_bytes (u64 (length msg * 8)))
  absorb-padding =
      absorb-append iv msg (padding (length msg))
      ∙ (absorb-append (absorb iv msg) (0x80 ∷ [])
            (replicate (zeros (length msg)) 0 ++ length_bytes (u64 (length msg * 8)))
          ∙ absorb-append _ (replicate (zeros (length msg)) 0)
              (length_bytes (u64 (length msg * 8))))

  sha256-absorb : out_bytes (absorb iv (msg ++ padding (length msg))).words ≡ sha256 msg
  unfolding sha256
  sha256-absorb =
      let padded = msg ++ padding (length msg) in
      ap (λ s. out_bytes (Progress.words s))
        (absorb-hash_blocks (length padded / 64) initial_h padded (omega (arith, padded_size msg)))

  -- `sha256_finalize` pads what has been absorbed.
  finalize_lem :
      {ctx : Ctx}
      → Holds ctx (absorb iv msg)
      → ctx.total_len ≡ u64 (length msg)
      → sha256_finalize ctx ≡ some (sha256 msg)
  unfolding sha256_finalize
  finalize_lem {ctx} v t =
      let s = absorb iv msg in
      let room = absorb_room iv msg (omega arith) in
      let (marked, _) = update_absorbs (0x80 ∷ []) v room in
      let count : length s.pending ≡ length msg % 64 =
        omega (arith, absorb_pending iv msg (omega arith)) in
      let pad =
        pad_zeros-Padded 64 (zeros (length msg)) marked (absorb_room s (0x80 ∷ []) room)
          (omega (arith, absorb_byte_pending s 0x80 room)) (omega arith) (omega arith) in
      let bits : u64 (ctx.total_len * 8) ≡ u64 (length msg * 8) = omega arith in
      rw (
        pad.returns,
        sha256_finalize,
        bits,
        finish_lem (u64 (length msg * 8)) pad.holds pad.size,
        ← absorb-padding,
        sha256-absorb,
      )

update_all-Holds :
    (chunks : List (List ℕ)) {ctx : Ctx} {s : Progress}
    → Holds ctx s
    → length s.pending < 64
    → ctx.total_len < 2 ^ 64
    → Holds (update_all ctx chunks) (absorb s (flatten chunks))
      × ((update_all ctx chunks).total_len ≡ u64 (ctx.total_len + length (flatten chunks)))
unfolding update_all
update_all-Holds [] v room fits = (unfold absorb in v, omega arith)
update_all-Holds (bytes ∷ rest) {ctx} {s} v room fits =
    let (holds, total) = update_absorbs bytes v room in
    let (holds', total') =
      update_all-Holds rest holds (absorb_room s bytes room) (omega (arith, total)) in
    (rw absorb-append holds', omega (arith, total, total', length-append bytes (flatten rest)))

init-Holds : (ctx : Ctx) → length ctx.buf ≡ 64 → Holds (sha256_init ctx) iv
unfolding sha256_init
init-Holds ctx h = record { words = refl; pending = refl; count = refl; size = h }

-- However a message is cut into pieces, hashing them in order, from any context with a 64-byte
-- buffer, returns, and returns the SHA-256 of the whole message: the padded message compressed
-- block by block.
pub digest-sha256 :
    (ctx : Ctx) (chunks : List (List ℕ))
    → length ctx.buf ≡ 64
    → sha256_finalize (update_all (sha256_init ctx) chunks) ≡ some (sha256 (flatten chunks))
digest-sha256 ctx chunks h =
    let start = init-Holds ctx h in
    let (holds, total) =
      update_all-Holds chunks start (omega arith) (unfold sha256_init in omega arith) in
    finalize_lem (flatten chunks) holds (unfold sha256_init in omega (arith, total))
