-- ===== src/Rpi4/Placed.antt =====
-- One allocation of the Raspberry Pi 4: where it lies, and what it leaves alone.
use dhruvaos.Base.{
  ℕ, ◌+◌, ◌-◌, ◌*◌, ◌/◌, ◌^◌, ◌<◌, ◌≤◌, ◌≡◌, ◌⊎◌, inl, inr, refl, ap, arith, ltb, u64, Bool-cases,
  true, List, [], ◌∷◌, ◌++◌,
}
use dhruvaos.Base.Bits.{bit_and_low, bit_and_high}
use dhruvaos.Heap.Zero.{zero_bytes-inside, zero_bytes-outside}
use dhruvaos.Heap.Step.{Request, size, guard_size, IsAligned}
use dhruvaos.Rpi4.{
  heap_bytes_rpi4, AllocatorRpi4, ResultRpi4, align_8_rpi4, align_page_rpi4, sub_u64,
  alloc_bytes_rpi4, alloc_stack_guarded_rpi4,
}

align_8_rpi4_lem : (x : ℕ) → x + 7 < 2 ^ 64 → align_8_rpi4 x ≡ (x + 7) / 8 * 8
unfolding align_8_rpi4
align_8_rpi4_lem x h = omega (
  arith,
  bit_and_high 3 (2 ^ 61 - 1) (u64 (x + 7)),
  bit_and_low 61 (2 ^ 61 - 1) (u64 (x + 7) / 8) refl,
)

align_page_rpi4_lem : (x : ℕ) → x + 4095 < 2 ^ 64 → align_page_rpi4 x ≡ (x + 4095) / 4096 * 4096
unfolding align_page_rpi4
align_page_rpi4_lem x h = omega (
  arith,
  bit_and_high 12 (2 ^ 52 - 1) (u64 (x + 4095)),
  bit_and_low 52 (2 ^ 52 - 1) (u64 (x + 4095) / 4096) refl,
)

abbrev pub call_rpi4 : ℕ → Request → AllocatorRpi4 → ResultRpi4
call_rpi4 base (Request.buffer n) s = alloc_bytes_rpi4 base n s
call_rpi4 base (Request.stack n) s = alloc_stack_guarded_rpi4 base n s

abbrev pub guards_of : Request → ℕ → List ℕ → List ℕ
guards_of (Request.buffer n) p guards = guards
guards_of (Request.stack n) p guards = guards ++ (p - 4096) ∷ []

pub record PlacedRpi4 (base : ℕ) (r : Request) (s : AllocatorRpi4) (p : ℕ) (t : AllocatorRpi4)
    : Type 0 where
  pub above : base + s.used + guard_size r ≤ p
  pub end : p + size r ≡ base + t.used
  pub inside : t.used ≤ heap_bytes_rpi4
  pub aligned : IsAligned base r p
  pub cleared : (a : ℕ) → p ≤ a → a < p + size r → t.memory a ≡ 0
  pub kept : (a : ℕ) → (a < p) ⊎ (p + size r ≤ a) → t.memory a ≡ s.memory a
  pub guarded : t.guards ≡ guards_of r p s.guards
  pub counted : t.count ≡ u64 (s.count + 1)
  pub restored : t.irq_masked ≡ s.irq_masked

-- A request is refused only when it does not fit behind the alignment and the guard page.
abbrev pub IsPlacedRpi4 : ℕ → Request → AllocatorRpi4 → ResultRpi4 → Type 0
IsPlacedRpi4 base r s (ResultRpi4.fatal requested used t) =
    (t ≡ record s { irq_masked = true }) × (heap_bytes_rpi4 < s.used + guard_size r + size r + 4095)
IsPlacedRpi4 base r s (ResultRpi4.allocated p t) = PlacedRpi4 base r s p t

module _ (base : ℕ) (low : base + heap_bytes_rpi4 + 4096 < 2 ^ 64) where
  alloc_bytes_rpi4-IsPlacedRpi4 :
      (n : ℕ) (s : AllocatorRpi4)
      → s.used ≤ heap_bytes_rpi4
      → n < 2 ^ 63
      → IsPlacedRpi4 base (Request.buffer n) s (alloc_bytes_rpi4 base n s)
  unfolding alloc_bytes_rpi4
  alloc_bytes_rpi4-IsPlacedRpi4 n s used fits =
      let up = align_8_rpi4_lem s.used (omega arith) in
      elim (Bool-cases (ltb heap_bytes_rpi4 (u64 (align_8_rpi4 s.used + n)))) [
        | inl e ↦ rw (e, IsPlacedRpi4) (refl, ground (arith, e, up))
        | inr e ↦
            let room : align_8_rpi4 s.used + n ≤ heap_bytes_rpi4 = ground (arith, e, up) in
            rw (e, IsPlacedRpi4)
              (record {
                above = omega (arith, up);
                end = omega (arith, room);
                inside = omega (arith, room);
                aligned = omega (arith, up);
                cleared = zero_bytes-inside n (base + align_8_rpi4 s.used) s.memory;
                kept = zero_bytes-outside n (base + align_8_rpi4 s.used) s.memory;
                guarded = refl;
                counted = refl;
                restored = refl;
              })
      ]

  alloc_stack_guarded_rpi4-IsPlacedRpi4 :
      (n : ℕ) (s : AllocatorRpi4)
      → s.used ≤ heap_bytes_rpi4
      → n < 2 ^ 63
      → IsPlacedRpi4 base (Request.stack n) s (alloc_stack_guarded_rpi4 base n s)
  unfolding alloc_stack_guarded_rpi4
  alloc_stack_guarded_rpi4-IsPlacedRpi4 n s used fits =
      let page = align_page_rpi4 (u64 (base + s.used)) in
      let offset = u64 (sub_u64 page base + 4096) in
      let up = align_page_rpi4_lem (u64 (base + s.used)) (omega arith) in
      elim (Bool-cases (ltb heap_bytes_rpi4 (u64 (offset + n)))) [
        | inl e ↦ rw (e, IsPlacedRpi4) (refl, ground (arith, e, up))
        | inr e ↦
            let room : offset + n ≤ heap_bytes_rpi4 = ground (arith, e, up) in
            rw (e, IsPlacedRpi4)
              (record {
                above = omega (arith, up);
                end = omega (arith, room);
                inside = omega (arith, room);
                aligned = omega (arith, up);
                cleared = zero_bytes-inside n (base + offset) s.memory;
                kept = zero_bytes-outside n (base + offset) s.memory;
                guarded = ap (λ a. s.guards ++ a ∷ []) (omega (arith, up, room));
                counted = refl;
                restored = refl;
              })
      ]

  -- Take a 64-bit heap whose end lies more than a page below 2 ^ 64, with its used part within it,
  -- and a request of less than 2 ^ 63 bytes. Either it stops with IRQs masked, and then the used
  -- part, a stack's guard page, the request and 4095 bytes more do not fit the heap. Or the block,
  -- behind its guard page, starts above the old used part and ends at the new one, which is within
  -- the heap; a buffer is aligned to 8 bytes from the heap's start and a stack to a page; its bytes
  -- are 0 and no other byte has changed; a guard page is installed right below a stack; and IRQs
  -- are masked or not as before.
  pub call_rpi4-IsPlacedRpi4 :
      (r : Request) (s : AllocatorRpi4)
      → s.used ≤ heap_bytes_rpi4
      → size r < 2 ^ 63
      → IsPlacedRpi4 base r s (call_rpi4 base r s)
  call_rpi4-IsPlacedRpi4 (Request.buffer n) s = alloc_bytes_rpi4-IsPlacedRpi4 n s
  call_rpi4-IsPlacedRpi4 (Request.stack n) s = alloc_stack_guarded_rpi4-IsPlacedRpi4 n s
