-- ===== src/Heap/Armed.antt =====
-- An armed fault: it stops a sequence of allocations by the call that it was armed for.
use dhruvaos.Base.{
  ℕ, zero, suc, ◌+◌, ◌<◌, ◌≤◌, ◌≡◌, inl, inr, arith, List, [], ◌∷◌, false, Bool-cases, ltb, u32,
  sub_u32,
}
use dhruvaos.Heap.{
  heap_bytes, Allocator, Result, count_down, align_8, align_page, alloc_bytes, alloc_stack_guarded,
}
use dhruvaos.Heap.Step.{Request, call}
use dhruvaos.Heap.Blocks.{Block, Run, cons, run}
use dhruvaos.Heap.Inject.{buffers, count_buffers}

-- A call that is served takes one step of the countdown if it counts, and never the last one.
abbrev IsCounted : Request → Allocator → Result → Type 0
IsCounted r s (Result.fatal requested used injected t) = Unit
IsCounted r s (Result.allocated p t) = (t.countdown + buffers r ≡ s.countdown) × (0 < t.countdown)

abbrev pub IsStopped : Run → Type 0
IsStopped (Run.served bs t) = ⊥
IsStopped (Run.stopped t) = Unit

cons-IsStopped : (b : Block) (rest : Run) → IsStopped rest → IsStopped (cons b rest)
cons-IsStopped b (Run.served bs t) h = h
cons-IsStopped b (Run.stopped t) h = tt

count_down-armed :
    (c : ℕ) → 0 < c → (count_down c).1 ≡ false → ((count_down c).0 + 1 ≡ c) × (0 < (count_down c).0)
unfolding count_down
count_down-armed zero pos off = absurd (omega arith)
count_down-armed (suc c) pos off = ground arith

module _ (base : ℕ) where
  alloc_bytes-IsCounted :
      (n : ℕ) (s : Allocator)
      → 0 < s.countdown
      → IsCounted (Request.buffer n) s (alloc_bytes base n s)
  unfolding alloc_bytes
  alloc_bytes-IsCounted n s pos = elim (Bool-cases (count_down s.countdown).1) [
    | inl e ↦ rw (e, IsCounted) tt
    | inr e ↦ elim (Bool-cases (ltb heap_bytes (u32 (align_8 s.used + n)))) [
      | inl e' ↦ rw (e, e', IsCounted) tt
      | inr e' ↦ rw (e, e', IsCounted) (count_down-armed s.countdown pos e)
    ]
  ]

  alloc_stack_guarded-IsCounted :
      (n : ℕ) (s : Allocator)
      → 0 < s.countdown
      → IsCounted (Request.stack n) s (alloc_stack_guarded base n s)
  unfolding alloc_stack_guarded
  alloc_stack_guarded-IsCounted n s pos =
      elim (Bool-cases
        (ltb heap_bytes (u32 (u32 (sub_u32 (align_page (u32 (base + s.used))) base + 4096) + n)))) [
          | inl e ↦ rw (e, IsCounted) tt
          | inr e ↦ rw (e, IsCounted) (omega arith, pos)
        ]

  call-IsCounted : (r : Request) (s : Allocator) → 0 < s.countdown → IsCounted r s (call base r s)
  call-IsCounted (Request.buffer n) s = alloc_bytes-IsCounted n s
  call-IsCounted (Request.stack n) s = alloc_stack_guarded-IsCounted n s

  counted :
      (r : Request) (rs : List Request) (s : Allocator) (got : Result)
      → IsCounted r s got
      → ((p : ℕ) (t : Allocator) → IsCounted r s (Result.allocated p t) → IsStopped (run base rs t))
      → IsStopped (elim got [
        | Result.fatal requested used injected t ↦ Run.stopped t
        | Result.allocated p t ↦ cons (record { request = r; start = p }) (run base rs t)
      ])
  counted r rs s (Result.fatal requested used injected t) h later = tt
  counted r rs s (Result.allocated p t) h later =
      cons-IsStopped (record { request = r; start = p }) _ (later p t h)

  -- A countdown that is on and not greater than the number of buffer requests of a sequence stops
  -- that sequence.
  pub armed-IsStopped :
      (rs : List Request) (s : Allocator)
      → 0 < s.countdown
      → s.countdown ≤ count_buffers rs
      → IsStopped (run base rs s)
  unfolding run
  armed-IsStopped [] s pos due = absurd (omega arith)
  armed-IsStopped (r ∷ rs) s pos due =
      counted r rs s (call base r s) (call-IsCounted r s pos)
        (λ p t (steps, left). armed-IsStopped rs t left (omega arith))
