-- ===== src/Heap.antt =====
-- The heap of boot/rpi1/runtime_stubs.c: a bump allocator for buffers and for task stacks with a
-- guard page, with fault injection and a fatal end when it is exhausted. `unsigned long` has 32 bits.
pub mod Align
pub mod Zero
pub mod Step
pub mod Blocks
pub mod Inject
pub mod Armed
pub mod Domain
use dhruvaos.Base.{
  ℕ, zero, suc, ◌+◌, ◌-◌, ◌*◌, ◌^◌, bit_and, Bool, true, false, List, [], ◌∷◌, ◌++◌, ltb, ◌==◌,
  if◌then◌else◌, u32, sub_u32,
}

abbrev pub heap_bytes : ℕ
heap_bytes = 786432

-- The calls of `mmu_guard_page_install` and `mmu_guard_page_install_domain`.
pub data Guard : Type 0 where
  page : ℕ → Guard
  domain_page : ℕ → ℕ → Guard

-- `dhruva_heap_used`, `dhruva_alloc_count` and `dhruva_fault_inject_alloc_countdown`; whether IRQs
-- are masked; the guard pages that were installed; and the memory by address. The memory is apart
-- from the static variables.
pub record Allocator : Type 0 where
  pub used : ℕ
  pub count : ℕ
  pub countdown : ℕ
  pub irq_masked : Bool
  pub guards : List Guard
  pub memory : ℕ → ℕ

-- The pointer that is returned, or the arguments of `dhruva_oom_fatal`, which does not return.
pub data Result : Type 0 where
  allocated : ℕ → Allocator → Result
  fatal : (requested used : ℕ) → (injected : Bool) → Allocator → Result

-- `p[i] = 0` for the `left` bytes from `p` on. Addresses do not wrap here, as they do not for a block
-- that lies within the heap.
unfoldable pub zero_bytes : ℕ → ℕ → (ℕ → ℕ) → ℕ → ℕ
zero_bytes zero p memory = memory
zero_bytes (suc left) p memory = zero_bytes left (p + 1) (λ a. if a == p then 0 else memory a)

-- `(x + 7) & ~7` and `(x + 4095) & ~4095`.
unfoldable pub align_8 : ℕ → ℕ
align_8 x = bit_and (u32 (x + 7)) (2 ^ 32 - 8)

unfoldable pub align_page : ℕ → ℕ
align_page x = bit_and (u32 (x + 4095)) (2 ^ 32 - 4096)

-- `dhruva_fault_inject_alloc_arm`; `after_n <= 0` is 0 here.
unfoldable pub fault_inject_alloc_arm : ℕ → Allocator → Allocator
fault_inject_alloc_arm after_n s = record s { countdown = u32 after_n }

-- The countdown after a call, and `injected_fault`.
unfoldable pub count_down : ℕ → ℕ × Bool
count_down zero = (0, false)
count_down (suc n) = (n, n == 0)

-- `dhruva_alloc_bytes`, for a heap at address `base`; `need` is the request as an `unsigned long`.
unfoldable pub alloc_bytes : ℕ → ℕ → Allocator → Result
alloc_bytes base need s =
    let (countdown, injected) = count_down s.countdown in
    let masked = record s { countdown = countdown; irq_masked = true } in
    let aligned_used = align_8 s.used in
    if injected
    then Result.fatal need s.used true masked
    else if ltb heap_bytes (u32 (aligned_used + need))
    then Result.fatal need s.used false masked
    else Result.allocated (base + aligned_used) (record masked {
      used = u32 (aligned_used + need);
      count = u32 (s.count + 1);
      irq_masked = s.irq_masked;
      memory = zero_bytes need (base + aligned_used) s.memory;
    })

-- `dhruva_alloc_stack_guarded`
unfoldable pub alloc_stack_guarded : ℕ → ℕ → Allocator → Result
alloc_stack_guarded base need s =
    let cur_abs = u32 (base + s.used) in
    let aligned_abs = align_page cur_abs in
    let guard_offset = sub_u32 aligned_abs base in
    let usable_offset = u32 (guard_offset + 4096) in
    if ltb heap_bytes (u32 (usable_offset + need))
    then Result.fatal need s.used false (record s { irq_masked = true })
    else Result.allocated (base + usable_offset) (record s {
      used = u32 (usable_offset + need);
      count = u32 (s.count + 1);
      guards = s.guards ++ Guard.page (base + guard_offset) ∷ [];
      memory = zero_bytes need (base + usable_offset) s.memory;
    })

abbrev pub domain_base : ℕ → ℕ
domain_base task_index = 0xA00000 + task_index * 0x100000

-- `dhruva_alloc_stack_domain` and `dhruva_alloc_usrstack_domain`.
unfoldable pub alloc_stack_domain : ℕ → ℕ → ℕ → Allocator → Result
alloc_stack_domain base need task_index s =
    let rest = alloc_stack_guarded base need s in
    let p = domain_base task_index + 4096 in
    if ltb 14 task_index
    then rest
    else if ltb 0x100000 (u32 (need + 4096))
    then Result.fatal need 0 false (record s { irq_masked = true })
    else Result.allocated p (record s {
      guards = s.guards ++ Guard.domain_page (domain_base task_index) task_index ∷ [];
      memory = zero_bytes need p s.memory;
    })

unfoldable pub alloc_usrstack_domain : ℕ → ℕ → ℕ → Allocator → Result
alloc_usrstack_domain base need task_index s =
    let rest = alloc_stack_guarded base need s in
    let guard_addr = domain_base task_index + 0x80000 in
    if ltb 14 task_index
    then rest
    else if ltb 0x100000 (u32 (need + 0x81000))
    then Result.fatal need 0 false (record s { irq_masked = true })
    else Result.allocated (guard_addr + 4096) (record s {
      guards = s.guards ++ Guard.domain_page guard_addr task_index ∷ [];
      memory = zero_bytes need (guard_addr + 4096) s.memory;
    })

-- The two counters that other code reads.
unfoldable pub dhruva_alloc_count_get : Allocator → ℕ
dhruva_alloc_count_get s = s.count

unfoldable pub dhruva_heap_used_bytes : Allocator → ℕ
dhruva_heap_used_bytes s = s.used
