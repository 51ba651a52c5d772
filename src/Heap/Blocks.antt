-- ===== src/Heap/Blocks.antt =====
-- A sequence of allocations: the blocks lie one behind another.
use mathlib.Core.Path.{subst}
use dhruvaos.Base.{sym, ℕ, ◌+◌, ◌^◌, ◌<◌, ◌≤◌, ◌≡◌, inl, refl, ◌∙◌, arith, List, [], ◌∷◌, All, true}
use dhruvaos.Heap.{heap_bytes, Allocator, Result}
use dhruvaos.Heap.Step.{Request, size, guard_size, call, IsAligned, Placed, IsPlaced, call-IsPlaced}

-- A request and the pointer that it was answered with.
pub record Block : Type 0 where
  pub request : Request
  pub start : ℕ

-- What a sequence of requests comes to.
pub data Run : Type 0 where
  served : List Block → Allocator → Run
  stopped : Allocator → Run

abbrev pub cons : Block → Run → Run
cons b (Run.served bs s) = Run.served (b ∷ bs) s
cons b (Run.stopped s) = Run.stopped s

unfoldable pub run : ℕ → List Request → Allocator → Run
run base [] s = Run.served [] s
run base (r ∷ rs) s = elim (call base r s) [
  | Result.fatal requested used injected t ↦ Run.stopped t
  | Result.allocated p t ↦ cons (record { request = r; start = p }) (run base rs t)
]

-- From address `lo` to address `hi` the blocks and the guard pages before them follow one another.
unfoldable pub AreApart : ℕ → List Block → ℕ → Type 0
AreApart lo [] hi = lo ≡ hi
AreApart lo (b ∷ bs) hi =
    (lo + guard_size b.request ≤ b.start) × AreApart (b.start + size b.request) bs hi

abbrev pub IsCleared : (ℕ → ℕ) → Block → Type 0
IsCleared memory b = (a : ℕ) → b.start ≤ a → a < b.start + size b.request → memory a ≡ 0

pub record Served (base : ℕ) (s : Allocator) (bs : List Block) (t : Allocator) : Type 0 where
  pub apart : AreApart (base + s.used) bs (base + t.used)
  pub inside : t.used ≤ heap_bytes
  pub aligned : All (λ b. IsAligned base b.request b.start) bs
  pub cleared : All (IsCleared t.memory) bs
  pub kept : (a : ℕ) → a < base + s.used → t.memory a ≡ s.memory a
  pub restored : t.irq_masked ≡ s.irq_masked

unfoldable pub IsServed : ℕ → Allocator → Run → Type 0
IsServed base s (Run.served bs t) = Served base s bs t
IsServed base s (Run.stopped t) = t.irq_masked ≡ true

module _ (base : ℕ) (low : base + heap_bytes + 4096 < 2 ^ 32) where
  cons-IsServed :
      (r : Request) (s : Allocator) (p : ℕ) (t : Allocator) (rest : Run)
      → Placed base r s p t
      → IsServed base t rest
      → IsServed base s (cons (record { request = r; start = p }) rest)
  unfolding IsServed AreApart
  cons-IsServed r s p t (Run.served bs u) here later = record {
    apart = (here.above, subst (λ lo. AreApart lo bs (base + u.used)) (sym here.end) later.apart);
    inside = later.inside;
    aligned = (here.aligned, later.aligned);
    cleared = (λ a p q. later.kept a (omega (arith, here.end)) ∙ here.cleared a p q, later.cleared);
    kept = λ a lt.
        later.kept a (omega (arith, here.end, here.above))
        ∙ here.kept a (inl (omega (arith, here.above)));
    restored = later.restored ∙ here.restored;
  }
  cons-IsServed r s p t (Run.stopped u) here later = later

  placed :
      (r : Request) (rs : List Request) (s : Allocator) (got : Result)
      → IsPlaced base r s got
      → ((t : Allocator) → t.used ≤ heap_bytes → IsServed base t (run base rs t))
      → IsServed base s (elim got [
        | Result.fatal requested used injected t ↦ Run.stopped t
        | Result.allocated p t ↦ cons (record { request = r; start = p }) (run base rs t)
      ])
  unfolding IsServed
  placed r rs s (Result.fatal requested used injected t) here later = here
  placed r rs s (Result.allocated p t) here later =
      cons-IsServed r s p t (run base rs t) here (later t here.inside)

  -- Take a heap whose end lies more than a page below 2 ^ 32, with `dhruva_heap_used` within it,
  -- and any sequence of buffer and guarded-stack requests, each of less than 2 ^ 31 bytes. Either
  -- the sequence stops with IRQs masked, or all of it is served: the blocks and the guard pages
  -- below the stacks follow one another without overlap from the old end of the used part to the
  -- new one, which is within the heap; buffers are aligned to 8 bytes from the heap's start and
  -- stacks to a page; every byte of every block is 0; no byte below the old end has changed; and
  -- IRQs are masked or not as before.
  pub run-IsServed :
      (rs : List Request) (s : Allocator)
      → All (λ r. size r < 2 ^ 31) rs
      → s.used ≤ heap_bytes
      → IsServed base s (run base rs s)
  unfolding run IsServed AreApart
  run-IsServed [] s fits used = record {
    apart = refl;
    inside = used;
    aligned = tt;
    cleared = tt;
    kept = λ a lt. refl;
    restored = refl;
  }
  run-IsServed (r ∷ rs) s (fit, fits) used =
      placed r rs s (call base r s) (call-IsPlaced base low r s used fit)
        (λ t h. run-IsServed rs t fits h)
