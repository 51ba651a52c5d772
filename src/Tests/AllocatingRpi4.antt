-- ===== src/Tests/AllocatingRpi4.antt =====
-- Tests of the heap of the Raspberry Pi 4.
use dhruvaos.Base.{ℕ, ◌≡◌, refl, [], ◌∷◌, true, arith}
use dhruvaos.Rpi4.{
  AllocatorRpi4, ResultRpi4, alloc_stack_guarded_rpi4, align_page_rpi4, buf_write_byte,
  buf_read_byte,
}
use dhruvaos.Heap.Step.{Request}
use dhruvaos.Rpi4.Blocks.{IsServedRpi4, run_rpi4, run_rpi4-IsServedRpi4}

abbrev booted_rpi4 : AllocatorRpi4
booted_rpi4 = record { used = 24; count = 1; irq_masked = true; guards = []; memory = λ a. 7 }

abbrev pointer : ResultRpi4 → ℕ
pointer (ResultRpi4.allocated p t) = p
pointer (ResultRpi4.fatal requested used t) = 0

-- The guard page starts at 0x91000.
stack_pointer : pointer (alloc_stack_guarded_rpi4 0x90010 512 booted_rpi4) ≡ 0x92000
unfolding alloc_stack_guarded_rpi4 align_page_rpi4
stack_pointer = refl

written_byte : buf_read_byte 100 5 (buf_write_byte 100 5 0x141 (λ a. 0)) ≡ 0x41
unfolding buf_read_byte buf_write_byte
written_byte = refl

run_rpi4-IsServedRpi4_example : IsServedRpi4 0x90010 booted_rpi4 (
    run_rpi4 0x90010
      (Request.stack 512 ∷ Request.buffer 100 ∷ Request.stack 786432 ∷ [])
      booted_rpi4)
run_rpi4-IsServedRpi4_example =
    run_rpi4-IsServedRpi4 0x90010
      (Request.stack 512 ∷ Request.buffer 100 ∷ Request.stack 786432 ∷ []) booted_rpi4 (omega arith)
      (omega arith, (omega arith, (omega arith, tt))) (omega arith)
