-- ===== src/Tests/Allocating.antt =====
-- Tests of the heap.
use dhruvaos.Base.{ℕ, ◌≡◌, refl, List, [], ◌∷◌, false, arith, inl}
use dhruvaos.Heap.{
  Allocator, align_8, align_page, count_down, alloc_bytes, alloc_stack_guarded, alloc_stack_domain,
  alloc_usrstack_domain,
}
use dhruvaos.Heap.Step.{Request}
use dhruvaos.Heap.Blocks.{Block, Run, run, IsServed, run-IsServed}
use dhruvaos.Heap.Inject.{IsRunServed, run-IsRunServed}
use dhruvaos.Heap.Armed.{IsStopped, armed-IsStopped}
use dhruvaos.Heap.Domain.{
  IsInDomain, alloc_stack_domain-IsInDomain, alloc_usrstack_domain-IsInDomain,
}

abbrev heap_address : ℕ
heap_address = 0x110040

abbrev booted : Allocator
booted = record {
  used = 0;
  count = 0;
  countdown = 0;
  irq_masked = false;
  guards = [];
  memory = λ a. 7;
}

abbrev requests : List Request
requests = Request.buffer 10 ∷ Request.stack 100 ∷ Request.buffer 3 ∷ []

-- The pointers of a run that was served.
abbrev starts : Run → List ℕ
starts (Run.served bs t) = starts_of bs
  where
    starts_of : List Block → List ℕ
    starts_of [] = []
    starts_of (b ∷ bs) = b.start ∷ starts_of bs
starts (Run.stopped t) = []

-- The page for the guard is the next one, and the stack is the page behind it.
three_blocks : starts (run heap_address requests booted) ≡ 0x110040 ∷ 0x112000 ∷ 0x112068 ∷ []
unfolding run alloc_bytes alloc_stack_guarded count_down align_8 align_page
three_blocks = refl

run-IsServed_example : IsServed heap_address booted (run heap_address requests booted)
run-IsServed_example =
    run-IsServed heap_address (omega arith) requests booted
      (omega arith, (omega arith, (omega arith, tt))) (omega arith)

run-IsRunServed_example : IsRunServed (run heap_address requests booted)
run-IsRunServed_example =
    run-IsRunServed heap_address (omega arith) requests booted (omega arith) (inl refl)

abbrev armed : Allocator
armed = record booted { countdown = 2 }

armed-IsStopped_example : IsStopped (run heap_address requests armed)
armed-IsStopped_example = armed-IsStopped heap_address requests armed (omega arith) (omega arith)

alloc_stack_domain-IsInDomain_example :
    IsInDomain 0 4096 3 booted (alloc_stack_domain heap_address 4096 3 booted)
alloc_stack_domain-IsInDomain_example =
    alloc_stack_domain-IsInDomain heap_address 4096 3 booted (omega arith) (omega arith)

alloc_usrstack_domain-IsInDomain_example :
    IsInDomain 0x80000 4096 3 booted (alloc_usrstack_domain heap_address 4096 3 booted)
alloc_usrstack_domain-IsInDomain_example =
    alloc_usrstack_domain-IsInDomain heap_address 4096 3 booted (omega arith) (omega arith)
