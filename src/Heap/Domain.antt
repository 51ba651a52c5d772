-- ===== src/Heap/Domain.antt =====
-- Task stacks in domains of 1 MiB: two stacks of a task, and the stacks of different tasks.
use dhruvaos.Base.{
  ℕ, ◌+◌, ◌^◌, ◌<◌, ◌≤◌, ◌≡◌, ◌⊎◌, inl, inr, refl, ap, [], ◌∷◌, ◌++◌, arith, true, false,
  Bool-cases, ltb, u32,
}
use dhruvaos.Heap.{Guard, Allocator, Result, domain_base, alloc_stack_domain, alloc_usrstack_domain}
use dhruvaos.Heap.Zero.{zero_bytes-outside}

-- The stack lies in the task's domain, above the guard page at offset `guard`, and nothing else in
-- memory is written.
pub record InDomain (guard n task_index : ℕ) (s : Allocator) (p : ℕ) (t : Allocator) : Type 0 where
  pub start : p ≡ domain_base task_index + guard + 4096
  pub end : p + n ≤ domain_base (task_index + 1)
  pub kept :
      (a : ℕ)
      → (a < domain_base task_index + guard + 4096) ⊎ (domain_base (task_index + 1) ≤ a)
      → t.memory a ≡ s.memory a
  pub heap : t.used ≡ s.used
  pub guarded :
      t.guards ≡ s.guards ++ Guard.domain_page (domain_base task_index + guard) task_index ∷ []

abbrev pub IsInDomain : ℕ → ℕ → ℕ → Allocator → Result → Type 0
IsInDomain guard n task_index s (Result.fatal requested used injected t) =
    (0x100000 < n + guard + 4096) × (t.irq_masked ≡ true)
IsInDomain guard n task_index s (Result.allocated p t) = InDomain guard n task_index s p t

module _ (base n task_index : ℕ) (s : Allocator) (index : task_index ≤ 14) (fits : n < 2 ^ 31) where
  in_range : ltb 14 task_index ≡ false
  in_range = ground arith

  -- For a task index up to 14 and a size below 2 ^ 31, `dhruva_alloc_stack_domain` stops with IRQs
  -- masked when the guard page and the stack are larger than 1 MiB; otherwise the stack starts
  -- right above the guard page that is installed at the start of the task's domain, ends within the
  -- domain, nothing outside that part of the domain is written, and the heap's used part is as
  -- before.
  pub alloc_stack_domain-IsInDomain :
      IsInDomain 0 n task_index s (alloc_stack_domain base n task_index s)
  unfolding alloc_stack_domain
  alloc_stack_domain-IsInDomain = elim (Bool-cases (ltb 0x100000 (u32 (n + 4096)))) [
    | inl e ↦ rw (in_range, e, IsInDomain) (ground (arith, e), refl)
    | inr e ↦
        let room : n + 4096 ≤ 0x100000 = ground (arith, e) in
        rw (in_range, e, IsInDomain)
          (record {
            start = omega arith;
            end = omega (arith, room);
            kept = λ a h.
                zero_bytes-outside n (domain_base task_index + 4096) s.memory a
                  (omega (arith, room));
            heap = refl;
            guarded = ap (λ a. s.guards ++ Guard.domain_page a task_index ∷ []) (omega arith);
          })
  ]

  -- For a task index up to 14 and a size below 2 ^ 31, `dhruva_alloc_usrstack_domain` stops with
  -- IRQs masked when 0x81000 bytes and the stack are larger than 1 MiB; otherwise the stack starts
  -- right above the guard page that is installed at offset 0x80000 of the task's domain, ends
  -- within the domain, nothing outside that part of the domain is written, and the heap's used part
  -- is as before.
  pub alloc_usrstack_domain-IsInDomain :
      IsInDomain 0x80000 n task_index s (alloc_usrstack_domain base n task_index s)
  unfolding alloc_usrstack_domain
  alloc_usrstack_domain-IsInDomain = elim (Bool-cases (ltb 0x100000 (u32 (n + 0x81000)))) [
    | inl e ↦ rw (in_range, e, IsInDomain) (ground (arith, e), refl)
    | inr e ↦
        let room : n + 0x81000 ≤ 0x100000 = ground (arith, e) in
        rw (in_range, e, IsInDomain)
          (record {
            start = omega arith;
            end = omega (arith, room);
            kept = λ a h.
                zero_bytes-outside n (domain_base task_index + 0x80000 + 4096) s.memory a
                  (omega (arith, room));
            heap = refl;
            guarded = refl;
          })
  ]
