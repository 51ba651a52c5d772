-- ===== src/Rpi4.antt =====
-- The heap of boot/rpi4/runtime_stubs_rpi4.c: the allocators without fault injection, where an
-- `unsigned long` has 64 bits.
pub mod Placed
pub mod Blocks
use dhruvaos.Base.{
  ℕ, ◌+◌, ◌-◌, ◌^◌, bit_and, Bool, true, false, List, [], ◌∷◌, ◌++◌, ltb, if◌then◌else◌, u64, u8,
  ◌==◌,
}
use dhruvaos.Heap.{zero_bytes}

abbrev pub heap_bytes_rpi4 : ℕ
heap_bytes_rpi4 = 786432

-- `dhruva_heap_used_rpi4` and `dhruva_alloc_count_rpi4`; whether IRQs are masked; the pages that
-- `mmu_guard_page_install_rpi4` was called for; and the memory by address.
pub record AllocatorRpi4 : Type 0 where
  pub used : ℕ
  pub count : ℕ
  pub irq_masked : Bool
  pub guards : List ℕ
  pub memory : ℕ → ℕ

-- The pointer that is returned, or the arguments of `dhruva_oom_fatal_rpi4`, which does not return.
pub data ResultRpi4 : Type 0 where
  allocated : ℕ → AllocatorRpi4 → ResultRpi4
  fatal : (requested used : ℕ) → AllocatorRpi4 → ResultRpi4

-- `(x + 7UL) & ~7UL` and `(x + 4095UL) & ~4095UL`.
unfoldable pub align_8_rpi4 : ℕ → ℕ
align_8_rpi4 x = bit_and (u64 (x + 7)) (2 ^ 64 - 8)

unfoldable pub align_page_rpi4 : ℕ → ℕ
align_page_rpi4 x = bit_and (u64 (x + 4095)) (2 ^ 64 - 4096)

-- `a - b` on `unsigned long`.
abbrev pub sub_u64 : ℕ → ℕ → ℕ
sub_u64 a b = u64 (a + 2 ^ 64 - b)

-- `dhruva_alloc_bytes_rpi4`, for a heap at address `base`.
unfoldable pub alloc_bytes_rpi4 : ℕ → ℕ → AllocatorRpi4 → ResultRpi4
alloc_bytes_rpi4 base need s =
    let aligned_used = align_8_rpi4 s.used in
    if ltb heap_bytes_rpi4 (u64 (aligned_used + need))
    then ResultRpi4.fatal need s.used (record s { irq_masked = true })
    else ResultRpi4.allocated (base + aligned_used) (record s {
      used = u64 (aligned_used + need);
      count = u64 (s.count + 1);
      memory = zero_bytes need (base + aligned_used) s.memory;
    })

-- `dhruva_alloc_stack_guarded_rpi4`
unfoldable pub alloc_stack_guarded_rpi4 : ℕ → ℕ → AllocatorRpi4 → ResultRpi4
alloc_stack_guarded_rpi4 base need s =
    let cur_abs = u64 (base + s.used) in
    let aligned_abs = align_page_rpi4 cur_abs in
    let guard_offset = sub_u64 aligned_abs base in
    let usable_offset = u64 (guard_offset + 4096) in
    if ltb heap_bytes_rpi4 (u64 (usable_offset + need))
    then ResultRpi4.fatal need s.used (record s { irq_masked = true })
    else ResultRpi4.allocated (base + usable_offset) (record s {
      used = u64 (usable_offset + need);
      count = u64 (s.count + 1);
      guards = s.guards ++ (base + guard_offset) ∷ [];
      memory = zero_bytes need (base + usable_offset) s.memory;
    })

-- `buf_write_byte` and `buf_read_byte`.
unfoldable pub buf_write_byte : ℕ → ℕ → ℕ → (ℕ → ℕ) → ℕ → ℕ
buf_write_byte buf offset value memory = λ a. if a == buf + offset then u8 value else memory a

unfoldable pub buf_read_byte : ℕ → ℕ → (ℕ → ℕ) → ℕ
buf_read_byte buf offset memory = memory (buf + offset)

-- The two counters that other code reads.
unfoldable pub dhruva_alloc_count_get_rpi4 : AllocatorRpi4 → ℕ
dhruva_alloc_count_get_rpi4 s = s.count

unfoldable pub dhruva_heap_used_bytes_rpi4 : AllocatorRpi4 → ℕ
dhruva_heap_used_bytes_rpi4 s = s.used
