-- ===== src/Heap/Step.antt =====
-- One allocation: where it lies, and what it leaves alone.
use dhruvaos.Base.{
  ℕ, ◌+◌, ◌-◌, ◌%◌, ◌^◌, ◌<◌, ◌≤◌, ◌≡◌, ◌⊎◌, inl, inr, refl, ap, [], ◌∷◌, ◌++◌, arith, ltb, u32,
  sub_u32, Bool-cases, true,
}
use dhruvaos.Heap.{
  heap_bytes, Guard, Allocator, Result, count_down, align_8, align_page, alloc_bytes,
  alloc_stack_guarded,
}
use dhruvaos.Heap.Align.{align_8_lem, align_page_lem}
use dhruvaos.Heap.Zero.{zero_bytes-inside, zero_bytes-outside}

-- A request: bytes or a stack with its guard page, and a size.
pub data Request : Type 0 where
  buffer : ℕ → Request
  stack : ℕ → Request

abbrev pub size : Request → ℕ
size (Request.buffer n) = n
size (Request.stack n) = n

-- What lies before the pointer that is returned.
abbrev pub guard_size : Request → ℕ
guard_size (Request.buffer n) = 0
guard_size (Request.stack n) = 4096

abbrev pub call : ℕ → Request → Allocator → Result
call base (Request.buffer n) s = alloc_bytes base n s
call base (Request.stack n) s = alloc_stack_guarded base n s

abbrev pub IsAligned : ℕ → Request → ℕ → Type 0
IsAligned base (Request.buffer n) p = (p - base) % 8 ≡ 0
IsAligned base (Request.stack n) p = p % 4096 ≡ 0

-- A stack's guard page is installed right below it.
abbrev pub IsGuarded : Request → Allocator → ℕ → Allocator → Type 0
IsGuarded (Request.buffer n) s p t = t.guards ≡ s.guards
IsGuarded (Request.stack n) s p t = t.guards ≡ s.guards ++ Guard.page (p - 4096) ∷ []

-- The pointer `p` and the state `t` after an allocation from `s`.
pub record Placed (base : ℕ) (r : Request) (s : Allocator) (p : ℕ) (t : Allocator) : Type 0 where
  pub above : base + s.used + guard_size r ≤ p
  pub end : p + size r ≡ base + t.used
  pub inside : t.used ≤ heap_bytes
  pub aligned : IsAligned base r p
  pub cleared : (a : ℕ) → p ≤ a → a < p + size r → t.memory a ≡ 0
  pub kept : (a : ℕ) → (a < p) ⊎ (p + size r ≤ a) → t.memory a ≡ s.memory a
  pub guarded : IsGuarded r s p t
  pub restored : t.irq_masked ≡ s.irq_masked

abbrev pub IsPlaced : ℕ → Request → Allocator → Result → Type 0
IsPlaced base r s (Result.fatal requested used injected t) = t.irq_masked ≡ true
IsPlaced base r s (Result.allocated p t) = Placed base r s p t

module _ (base : ℕ) (low : base + heap_bytes + 4096 < 2 ^ 32) where
  alloc_bytes-IsPlaced :
      (n : ℕ) (s : Allocator)
      → s.used ≤ heap_bytes
      → n < 2 ^ 31
      → IsPlaced base (Request.buffer n) s (alloc_bytes base n s)
  unfolding alloc_bytes
  alloc_bytes-IsPlaced n s used fits = elim (Bool-cases (count_down s.countdown).1) [
    | inl e ↦ rw (e, IsPlaced) refl
    | inr e ↦ elim (Bool-cases (ltb heap_bytes (u32 (align_8 s.used + n)))) [
      | inl e' ↦ rw (e, e', IsPlaced) refl
      | inr e' ↦
          let up = align_8_lem s.used (omega arith) in
          let room : align_8 s.used + n ≤ heap_bytes = ground (arith, e', up) in
          rw (e, e', IsPlaced)
            (record {
              above = omega (arith, up);
              end = omega (arith, room);
              inside = omega (arith, room);
              aligned = omega (arith, up);
              cleared = zero_bytes-inside n (base + align_8 s.used) s.memory;
              kept = zero_bytes-outside n (base + align_8 s.used) s.memory;
              guarded = refl;
              restored = refl;
            })
    ]
  ]

  alloc_stack_guarded-IsPlaced :
      (n : ℕ) (s : Allocator)
      → s.used ≤ heap_bytes
      → n < 2 ^ 31
      → IsPlaced base (Request.stack n) s (alloc_stack_guarded base n s)
  unfolding alloc_stack_guarded
  alloc_stack_guarded-IsPlaced n s used fits =
      let page = align_page (u32 (base + s.used)) in
      let offset = u32 (sub_u32 page base + 4096) in
      elim (Bool-cases (ltb heap_bytes (u32 (offset + n)))) [
        | inl e ↦ rw (e, IsPlaced) refl
        | inr e ↦
            let up = align_page_lem (u32 (base + s.used)) (omega arith) in
            let room : offset + n ≤ heap_bytes = ground (arith, e, up) in
            rw (e, IsPlaced)
              (record {
                above = omega (arith, up);
                end = omega (arith, room);
                inside = omega (arith, room);
                aligned = omega (arith, up);
                cleared = zero_bytes-inside n (base + offset) s.memory;
                kept = zero_bytes-outside n (base + offset) s.memory;
                guarded = ap (λ a. s.guards ++ Guard.page a ∷ []) (omega (arith, up, room));
                restored = refl;
              })
      ]

  -- `call`, for either kind of request.
  pub call-IsPlaced :
      (r : Request) (s : Allocator)
      → s.used ≤ heap_bytes
      → size r < 2 ^ 31
      → IsPlaced base r s (call base r s)
  call-IsPlaced (Request.buffer n) s = alloc_bytes-IsPlaced n s
  call-IsPlaced (Request.stack n) s = alloc_stack_guarded-IsPlaced n s
