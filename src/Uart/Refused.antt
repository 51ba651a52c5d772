-- ===== src/Uart/Refused.antt =====
-- An allocation that is refused, and the report of it.
use dhruvaos.Base.{
  ℕ, ◌+◌, ◌^◌, ◌<◌, ◌≤◌, ◌≡◌, refl, arith, ltb, u32, u64, sub_u32, Bool-cases, inl, inr,
  if◌then◌else◌,
}
use dhruvaos.Heap.{
  heap_bytes, Allocator, Result, count_down, align_8, align_page, alloc_bytes, alloc_stack_guarded,
}
use dhruvaos.Heap.Step.{Request, size, call}
use dhruvaos.Rpi4.{
  heap_bytes_rpi4, AllocatorRpi4, ResultRpi4, align_8_rpi4, align_page_rpi4, sub_u64,
  alloc_bytes_rpi4, alloc_stack_guarded_rpi4,
}
use dhruvaos.Rpi4.Placed.{call_rpi4}
use dhruvaos.Uart.{port_rpi1, port_rpi4}
use dhruvaos.Uart.Prints.{Drains}
use dhruvaos.Uart.Report.{
  dhruva_oom_fatal, dhruva_oom_fatal_rpi4, injected_tail, exhausted_tail, exhausted_tail_rpi4,
  Reports, dhruva_oom_fatal-Reports, dhruva_oom_fatal_rpi4-Reports,
}

-- The arguments of the fatal end are the request and the used part.
abbrev IsTold : ℕ → ℕ → Result → Type 0
IsTold n used (Result.allocated p t) = Unit
IsTold n used (Result.fatal requested u injected t) = (requested ≡ n) × (u ≡ used)

call-IsTold : (base : ℕ) (r : Request) (s : Allocator) → IsTold (size r) s.used (call base r s)
unfolding alloc_bytes alloc_stack_guarded
call-IsTold base (Request.buffer n) s = elim (Bool-cases (count_down s.countdown).1) [
  | inl e ↦ rw (e, IsTold) (refl, refl)
  | inr e ↦ elim (Bool-cases (ltb heap_bytes (u32 (align_8 s.used + n)))) [
    | inl e' ↦ rw (e, e', IsTold) (refl, refl)
    | inr e' ↦ rw (e, e', IsTold) tt
  ]
]
call-IsTold base (Request.stack n) s =
    let page = align_page (u32 (base + s.used)) in
    elim (Bool-cases (ltb heap_bytes (u32 (u32 (sub_u32 page base + 4096) + n)))) [
      | inl e ↦ rw (e, IsTold) (refl, refl)
      | inr e ↦ rw (e, IsTold) tt
    ]

abbrev IsToldRpi4 : ℕ → ℕ → ResultRpi4 → Type 0
IsToldRpi4 n used (ResultRpi4.allocated p t) = Unit
IsToldRpi4 n used (ResultRpi4.fatal requested u t) = (requested ≡ n) × (u ≡ used)

call_rpi4-IsToldRpi4 :
    (base : ℕ) (r : Request) (s : AllocatorRpi4) → IsToldRpi4 (size r) s.used (call_rpi4 base r s)
unfolding alloc_bytes_rpi4 alloc_stack_guarded_rpi4
call_rpi4-IsToldRpi4 base (Request.buffer n) s =
    elim (Bool-cases (ltb heap_bytes_rpi4 (u64 (align_8_rpi4 s.used + n)))) [
      | inl e ↦ rw (e, IsToldRpi4) (refl, refl)
      | inr e ↦ rw (e, IsToldRpi4) tt
    ]
call_rpi4-IsToldRpi4 base (Request.stack n) s =
    let page = align_page_rpi4 (u64 (base + s.used)) in
    elim (Bool-cases (ltb heap_bytes_rpi4 (u64 (u64 (sub_u64 page base + 4096) + n)))) [
      | inl e ↦ rw (e, IsToldRpi4) (refl, refl)
      | inr e ↦ rw (e, IsToldRpi4) tt
    ]

module _ (answers : ℕ → ℕ → ℕ) (limit : ℕ) where
  -- What a refused call prints before it halts.
  abbrev pub IsReported : Request → Allocator → Result → Type 0
  IsReported r s (Result.allocated p t) = Unit
  IsReported r s (Result.fatal requested used injected t) =
      Reports port_rpi1.dr (dhruva_oom_fatal answers limit requested used injected) (size r) s.used
        heap_bytes (if injected then injected_tail else exhausted_tail)

  abbrev pub IsReportedRpi4 : Request → AllocatorRpi4 → ResultRpi4 → Type 0
  IsReportedRpi4 r s (ResultRpi4.allocated p t) = Unit
  IsReportedRpi4 r s (ResultRpi4.fatal requested used t) =
      Reports port_rpi4.dr (dhruva_oom_fatal_rpi4 answers limit requested used) (size r) s.used
        heap_bytes_rpi4 exhausted_tail_rpi4

  told-IsReported :
      (r : Request) (s : Allocator) (got : Result)
      → 300 ≤ limit
      → Drains answers port_rpi1.fr limit
      → size r < 2 ^ 32
      → s.used < 2 ^ 32
      → IsTold (size r) s.used got
      → IsReported r s got
  told-IsReported r s (Result.allocated p t) enough drains hq hu h = tt
  told-IsReported r s (Result.fatal requested used injected t) enough drains hq hu (eq, eu) =
      rw (eq, eu)
        (dhruva_oom_fatal-Reports answers limit enough (size r) s.used injected drains (omega arith)
          (omega arith))

  told-IsReportedRpi4 :
      (r : Request) (s : AllocatorRpi4) (got : ResultRpi4)
      → 300 ≤ limit
      → Drains answers port_rpi4.fr limit
      → size r < 2 ^ 63
      → s.used < 2 ^ 63
      → IsToldRpi4 (size r) s.used got
      → IsReportedRpi4 r s got
  told-IsReportedRpi4 r s (ResultRpi4.allocated p t) enough drains hq hu h = tt
  told-IsReportedRpi4 r s (ResultRpi4.fatal requested used t) enough drains hq hu (eq, eu) =
      rw (eq, eu) (dhruva_oom_fatal_rpi4-Reports answers limit enough (size r) s.used drains hq hu)

-- Take the UARTs of both boards, whose transmit FIFOs have room again within `limit` reads of their
-- flags whenever they are read, and at least 300 rounds for each loop. When the heap of either
-- board refuses a buffer or a guarded stack, the report of its fatal end returns, and what it has
-- written to the UART's data register is the message with a decimal numeral of the request, one of
-- the bytes that were in use and one of the size of the heap; on the Raspberry Pi 1 it ends with
-- the text for an injected fault when the fault was injected, and with the text for a full heap
-- otherwise. The request and the used part are below 2 ^ 32, and the used part of the Raspberry Pi
-- 4 below 2 ^ 63.
pub calls-IsReported :
    (answers : ℕ → ℕ → ℕ) (limit base : ℕ) (r : Request) (s : Allocator) (s4 : AllocatorRpi4)
    → 300 ≤ limit
    → Drains answers port_rpi1.fr limit
    → Drains answers port_rpi4.fr limit
    → size r < 2 ^ 32
    → s.used < 2 ^ 32
    → s4.used < 2 ^ 63
    → IsReported answers limit r s (call base r s)
      × IsReportedRpi4 answers limit r s4 (call_rpi4 base r s4)
calls-IsReported answers limit base r s s4 enough drains drains4 hq hu hu4 = (
  told-IsReported answers limit r s (call base r s) enough drains hq hu (call-IsTold base r s),
  told-IsReportedRpi4 answers limit r s4 (call_rpi4 base r s4) enough drains4 (omega arith) hu4
      (call_rpi4-IsToldRpi4 base r s4),
)
