-- ===== src/Sha256/Stream.antt =====
-- The parts of `sha256_update` that work on `buf`: what each has absorbed of its bytes.
use dhruvaos.Base.{
  ℕ, zero, suc, ◌+◌, ◌-◌, ◌≤◌, ◌<◌, ◌≡◌, refl, ◌∙◌, ◌⊎◌, inl, inr, List, [], ◌∷◌, ◌++◌, append-nil,
  append_assoc, arith, length, take, drop, length-append, length-set, length-take, take-suc-set,
  nil_of_length, take_all, drop_all, take-append-drop, ◌==◌, Bool-cases,
}
use mathlib.Core.Path.{subst}
use native.Mathlib.Decide.{dec_lt}
use dhruvaos.Sha256.{Ctx, compress, sha256_block, put, fill, flush, top_up, put_all}
use dhruvaos.Sha256.Progress.{Progress, absorb, absorb_short, absorb_full}

-- The context holds this progress; the rest of `buf` is stale.
pub record Holds (ctx : Ctx) (s : Progress) : Type 0 where
  pub words : ctx.h ≡ s.words
  pub pending : take ctx.buf_len ctx.buf ≡ s.pending
  pub count : ctx.buf_len ≡ length s.pending
  pub size : length ctx.buf ≡ 64

put-Holds :
    {ctx : Ctx} {s : Progress} (b : ℕ)
    → Holds ctx s
    → length s.pending < 64
    → Holds (put ctx b) (record s { pending = s.pending ++ (b ∷ []) })
put-Holds {ctx} {s} b v h = ground (
  arith,
  take-suc-set ctx.buf ctx.buf_len b,
  length-set ctx.buf ctx.buf_len b,
  length-append s.pending (b ∷ []),
)

pub put_all-Holds :
    (bytes : List ℕ) {ctx : Ctx} {s : Progress}
    → Holds ctx s
    → length s.pending + length bytes ≤ 64
    → Holds (put_all ctx bytes) (record s { pending = s.pending ++ bytes })
unfolding put_all
put_all-Holds [] {ctx} {s} v h = rw append-nil v
put_all-Holds (b ∷ bs) {ctx} {s} v h = rw (← append_assoc s.pending (b ∷ []) bs) (
    put_all-Holds bs (put-Holds b v (omega arith))
      (omega (arith, length-append s.pending (b ∷ []))))

pub total_len-put_all : (bytes : List ℕ) (ctx : Ctx) → (put_all ctx bytes).total_len ≡ ctx.total_len
unfolding put_all
total_len-put_all [] ctx = refl
total_len-put_all (b ∷ bs) ctx = total_len-put_all bs (put ctx b)

-- `fill` takes as many bytes as there is room for.
fill-put_all :
    (bytes : List ℕ) (n : ℕ) (ctx : Ctx)
    → ctx.buf_len + n ≡ 64
    → fill ctx bytes ≡ (put_all ctx (take n bytes), drop n bytes)
unfolding fill put_all
fill-put_all [] zero ctx h = refl
fill-put_all [] (suc n) ctx h = refl
fill-put_all (b ∷ bs) zero ctx h = let e : ctx.buf_len ≡ 64 = omega arith in rw e
fill-put_all (b ∷ bs) (suc n) ctx h = ground (arith, fill-put_all bs n (put ctx b))

flush-full :
    {ctx : Ctx} {s : Progress}
    → Holds ctx s
    → length s.pending ≡ 64
    → Holds (flush ctx) (record { words = compress s.words s.pending; pending = [] })
unfolding flush sha256_block
flush-full {ctx} v h = ground (arith, take_all ctx.buf_len ctx.buf)

flush-short : (ctx : Ctx) → ctx.buf_len < 64 → flush ctx ≡ ctx
unfolding flush
flush-short ctx h = ground arith

total_len-flush : (ctx : Ctx) → (flush ctx).total_len ≡ ctx.total_len
unfolding flush sha256_block
total_len-flush ctx = ground arith

-- A step has absorbed the front of the bytes and left the others, which come before a whole block
-- is pending only if there are none.
pub record Took (ctx : Ctx) (s : Progress) (bytes : List ℕ) (out : Ctx × List ℕ) : Type 0 where
  pub front : List ℕ
  pub split : front ++ out.1 ≡ bytes
  pub holds : Holds out.0 (absorb s front)
  pub total : out.0.total_len ≡ ctx.total_len
  pub aligned : ((absorb s front).pending ≡ []) ⊎ (out.1 ≡ [])

module _ {ctx : Ctx} {s : Progress} (v : Holds ctx s) where
  Took-short :
      (bytes : List ℕ)
      → length s.pending + length bytes < 64
      → Took ctx s bytes (flush (put_all ctx bytes), [])
  Took-short bytes h =
      let filled = put_all-Holds bytes v (omega arith) in
      let waits : (put_all ctx bytes).buf_len < 64 =
        omega (arith, filled.count, length-append s.pending bytes) in
      rw (flush-short (put_all ctx bytes) waits) (record {
        front = bytes;
        split = append-nil bytes;
        holds = rw (absorb_short s bytes h) filled;
        total = total_len-put_all bytes ctx;
        aligned = inr refl;
      })

  Took-full :
      (front rest : List ℕ)
      → length s.pending < 64
      → length s.pending + length front ≡ 64
      → Took ctx s (front ++ rest) (flush (put_all ctx front), rest)
  Took-full front rest room h =
      let filled = put_all-Holds front v (omega arith) in
      let done = flush-full filled (omega (arith, length-append s.pending front)) in
      record {
        front = front;
        split = refl;
        holds = rw (absorb_full s front room h) done;
        total = total_len-flush (put_all ctx front) ∙ total_len-put_all front ctx;
        aligned = inl (rw (absorb_full s front room h));
      }

  filled-Took :
      (bytes : List ℕ)
      → length s.pending < 64
      → Took ctx s bytes (flush (fill ctx bytes).0, (fill ctx bytes).1)
  filled-Took bytes room =
      let n = 64 - length s.pending in
      rw (fill-put_all bytes n ctx (omega (arith, v.count))) (elim (dec_lt (length bytes) n) [
        | yes p ↦
            rw (take_all n bytes (omega arith), drop_all n bytes (omega arith))
              (Took-short bytes (omega arith))
        | no p ↦
            subst (λ b. Took ctx s b (flush (put_all ctx (take n bytes)), drop n bytes))
              (take-append-drop n bytes)
              (Took-full (take n bytes) (drop n bytes) room (omega (arith, length-take n bytes)))
      ])

  pub top_up-Took : (bytes : List ℕ) → length s.pending < 64 → Took ctx s bytes (top_up ctx bytes)
  unfolding top_up
  top_up-Took bytes room = elim (Bool-cases (ctx.buf_len == 0)) [
    | inl e ↦ rw e (record {
      front = [];
      split = refl;
      holds = unfold absorb in v;
      total = refl;
      aligned = inl (unfold absorb in nil_of_length s.pending (ground (arith, v.count)));
    })
    | inr e ↦ rw e (filled-Took bytes room)
  ]
