-- ===== src/Heap/Inject.antt =====
-- When a sequence of allocations is served: room enough, and no fault injected on the way.
use dhruvaos.Base.{
  ℕ, zero, suc, ◌+◌, ◌-◌, ◌^◌, ◌<◌, ◌≤◌, ◌≡◌, ◌⊎◌, refl, arith, List, [], ◌∷◌, false, ltb, u32,
  sub_u32,
}
use dhruvaos.Heap.{
  heap_bytes, Allocator, Result, count_down, align_8, align_page, alloc_bytes, alloc_stack_guarded,
}
use dhruvaos.Heap.Align.{align_8_lem, align_page_lem}
use dhruvaos.Heap.Step.{Request, call}
use dhruvaos.Heap.Blocks.{Block, Run, cons, run}

-- How much of the heap a request can take at most, with its alignment and its guard page.
abbrev pub demand : Request → ℕ
demand (Request.buffer n) = n + 7
demand (Request.stack n) = n + 8191

abbrev pub demands : List Request → ℕ
demands [] = 0
demands (r ∷ rs) = demand r + demands rs

-- The calls that the countdown counts.
abbrev pub buffers : Request → ℕ
buffers (Request.buffer n) = 1
buffers (Request.stack n) = 0

abbrev pub count_buffers : List Request → ℕ
count_buffers [] = 0
count_buffers (r ∷ rs) = buffers r + count_buffers rs

-- The countdown is off, or it outlasts `n` calls.
abbrev pub Outlasts : ℕ → ℕ → Type 0
Outlasts n countdown = (countdown ≡ 0) ⊎ (n < countdown)

-- A request is granted: it took no more than its demand, and one step of the countdown if it counts.
abbrev pub IsGranted : Request → Allocator → Result → Type 0
IsGranted r s (Result.fatal requested used injected t) = ⊥
IsGranted r s (Result.allocated p t) =
    (t.used ≤ s.used + demand r) × (t.countdown ≡ s.countdown - buffers r)

abbrev pub IsRunServed : Run → Type 0
IsRunServed (Run.served bs t) = Unit
IsRunServed (Run.stopped t) = ⊥

cons-IsRunServed : (b : Block) (rest : Run) → IsRunServed rest → IsRunServed (cons b rest)
cons-IsRunServed b (Run.served bs t) h = tt
cons-IsRunServed b (Run.stopped t) h = h

count_down-quiet : (n c : ℕ) → Outlasts (suc n) c → (count_down c).1 ≡ false
unfolding count_down
count_down-quiet n zero h = refl
count_down-quiet n (suc c) h = ground arith

count_down-counts : (c : ℕ) → (count_down c).0 ≡ c - 1
unfolding count_down
count_down-counts zero = refl
count_down-counts (suc c) = omega arith

module _ (base : ℕ) (low : base + heap_bytes + 4096 < 2 ^ 32) where
  alloc_bytes-IsGranted :
      (m n : ℕ) (s : Allocator)
      → s.used + m + 7 ≤ heap_bytes
      → Outlasts (suc n) s.countdown
      → IsGranted (Request.buffer m) s (alloc_bytes base m s)
  unfolding alloc_bytes
  alloc_bytes-IsGranted m n s fits quiet =
      let up = align_8_lem s.used (omega arith) in
      let off = count_down-quiet n s.countdown quiet in
      let room : ltb heap_bytes (u32 (align_8 s.used + m)) ≡ false = ground (arith, up) in
      rw (off, room, IsGranted) (omega (arith, up), count_down-counts s.countdown)

  alloc_stack_guarded-IsGranted :
      (m : ℕ) (s : Allocator)
      → s.used + m + 8191 ≤ heap_bytes
      → IsGranted (Request.stack m) s (alloc_stack_guarded base m s)
  unfolding alloc_stack_guarded
  alloc_stack_guarded-IsGranted m s fits =
      let up = align_page_lem (u32 (base + s.used)) (omega arith) in
      let room : ltb heap_bytes
            (u32 (u32 (sub_u32 (align_page (u32 (base + s.used))) base + 4096) + m))
          ≡ false =
        ground (arith, up) in
      rw (room, IsGranted) (omega (arith, up), omega arith)

  call-IsGranted :
      (r : Request) (n : ℕ) (s : Allocator)
      → s.used + demand r ≤ heap_bytes
      → Outlasts (buffers r + n) s.countdown
      → IsGranted r s (call base r s)
  call-IsGranted (Request.buffer m) n s fits quiet =
      alloc_bytes-IsGranted m n s (omega arith) (omega arith)
  call-IsGranted (Request.stack m) n s fits quiet = alloc_stack_guarded-IsGranted m s (omega arith)

  granted :
      (r : Request) (rs : List Request) (s : Allocator) (got : Result)
      → IsGranted r s got
      → ((p : ℕ) (t : Allocator)
          → IsGranted r s (Result.allocated p t)
          → IsRunServed (run base rs t))
      → IsRunServed (elim got [
        | Result.fatal requested used injected t ↦ Run.stopped t
        | Result.allocated p t ↦ cons (record { request = r; start = p }) (run base rs t)
      ])
  granted r rs s (Result.fatal requested used injected t) h later = h
  granted r rs s (Result.allocated p t) h later =
      cons-IsRunServed (record { request = r; start = p }) _ (later p t h)

  -- For a heap whose end lies more than a page below 2 ^ 32, a sequence of requests is served when
  -- the used part and the sizes, with 7 bytes more for each buffer and 8191 for each stack, fit the
  -- heap, and the fault countdown is off or greater than the number of buffer requests.
  pub run-IsRunServed :
      (rs : List Request) (s : Allocator)
      → s.used + demands rs ≤ heap_bytes
      → Outlasts (count_buffers rs) s.countdown
      → IsRunServed (run base rs s)
  unfolding run
  run-IsRunServed [] s fits quiet = tt
  run-IsRunServed (r ∷ rs) s fits quiet =
      granted r rs s (call base r s) (call-IsGranted r (count_buffers rs) s (omega arith) quiet)
        (λ p t (used, counted). run-IsRunServed rs t (omega arith) (omega arith))
