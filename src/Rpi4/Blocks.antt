-- ===== src/Rpi4/Blocks.antt =====
-- A sequence of allocations on the Raspberry Pi 4: the blocks, and the guard pages between them.
use mathlib.Core.Path.{subst}
use dhruvaos.Base.{
  sym, ap, ℕ, ◌+◌, ◌-◌, ◌^◌, ◌<◌, ◌≤◌, ◌≡◌, inl, refl, ◌∙◌, arith, List, [], ◌∷◌, ◌++◌, append-nil,
  append_assoc, All, Bool, true, length, u64,
}
use dhruvaos.Heap.Step.{Request, size, guard_size, IsAligned}
use dhruvaos.Heap.Blocks.{Block, AreApart, IsCleared}
use dhruvaos.Rpi4.{heap_bytes_rpi4, AllocatorRpi4, ResultRpi4}
use dhruvaos.Rpi4.Placed.{PlacedRpi4, IsPlacedRpi4, guards_of, call_rpi4, call_rpi4-IsPlacedRpi4}

-- What a sequence of requests comes to: it stops with the first one that is refused.
pub data RunRpi4 : Type 0 where
  served : List Block → AllocatorRpi4 → RunRpi4
  stopped : List Block → Request → AllocatorRpi4 → RunRpi4

abbrev pub cons_rpi4 : Block → RunRpi4 → RunRpi4
cons_rpi4 b (RunRpi4.served bs s) = RunRpi4.served (b ∷ bs) s
cons_rpi4 b (RunRpi4.stopped bs r s) = RunRpi4.stopped (b ∷ bs) r s

unfoldable pub run_rpi4 : ℕ → List Request → AllocatorRpi4 → RunRpi4
run_rpi4 base [] s = RunRpi4.served [] s
run_rpi4 base (r ∷ rs) s = elim (call_rpi4 base r s) [
  | ResultRpi4.fatal requested used t ↦ RunRpi4.stopped [] r t
  | ResultRpi4.allocated p t ↦ cons_rpi4 (record { request = r; start = p }) (run_rpi4 base rs t)
]

-- The guard pages of the blocks, in order.
abbrev pub guard_pages : List Block → List ℕ
guard_pages [] = []
guard_pages (b ∷ bs) = guards_of b.request b.start [] ++ guard_pages bs

pub record ServedRpi4 (base : ℕ) (s : AllocatorRpi4) (bs : List Block) (t : AllocatorRpi4)
    : Type 0 where
  pub apart : AreApart (base + s.used) bs (base + t.used)
  pub inside : t.used ≤ heap_bytes_rpi4
  pub aligned : All (λ b. IsAligned base b.request b.start) bs
  pub cleared : All (IsCleared t.memory) bs
  pub kept : (a : ℕ) → a < base + s.used → t.memory a ≡ s.memory a
  pub guarded : t.guards ≡ s.guards ++ guard_pages bs
  pub counted : u64 t.count ≡ u64 (s.count + length bs)

-- The refused request does not fit behind what is served.
unfoldable pub IsServedRpi4 : ℕ → AllocatorRpi4 → RunRpi4 → Type 0
IsServedRpi4 base s (RunRpi4.served bs t) = ServedRpi4 base s bs t × (t.irq_masked ≡ s.irq_masked)
IsServedRpi4 base s (RunRpi4.stopped bs r t) =
    ServedRpi4 base s bs t
    × (t.irq_masked ≡ true)
    × (heap_bytes_rpi4 < t.used + guard_size r + size r + 4095)

guards_of-append :
    (r : Request) (p : ℕ) (guards rest : List ℕ)
    → guards_of r p guards ++ rest ≡ guards ++ (guards_of r p [] ++ rest)
guards_of-append (Request.buffer n) p guards rest = refl
guards_of-append (Request.stack n) p guards rest = append_assoc guards ((p - 4096) ∷ []) rest

module _ (base : ℕ) where
  none_ServedRpi4 :
      (s t : AllocatorRpi4) (masked : Bool)
      → s.used ≤ heap_bytes_rpi4
      → t ≡ record s { irq_masked = masked }
      → ServedRpi4 base s [] t
  unfolding AreApart
  none_ServedRpi4 s t masked used e = rw e (record {
    apart = refl;
    inside = used;
    aligned = tt;
    cleared = tt;
    kept = λ a lt. refl;
    guarded = sym (append-nil s.guards);
    counted = omega arith;
  })

  more_ServedRpi4 :
      {r : Request} {s : AllocatorRpi4} {p : ℕ} {t : AllocatorRpi4} (bs : List Block)
      (u : AllocatorRpi4)
      → PlacedRpi4 base r s p t
      → ServedRpi4 base t bs u
      → ServedRpi4 base s (record { request = r; start = p } ∷ bs) u
  unfolding AreApart
  more_ServedRpi4 {r} {s} {p} {t} bs u here later = record {
    apart = (here.above, subst (λ lo. AreApart lo bs (base + u.used)) (sym here.end) later.apart);
    inside = later.inside;
    aligned = (here.aligned, later.aligned);
    cleared = (λ a p q. later.kept a (omega (arith, here.end)) ∙ here.cleared a p q, later.cleared);
    kept = λ a lt.
        later.kept a (omega (arith, here.end, here.above))
        ∙ here.kept a (inl (omega (arith, here.above)));
    guarded =
        later.guarded
        ∙ (ap (λ g. g ++ guard_pages bs) here.guarded
            ∙ guards_of-append r p s.guards (guard_pages bs));
    counted = omega (arith, later.counted, here.counted);
  }

  cons_rpi4-IsServedRpi4 :
      {r : Request} {s : AllocatorRpi4} {p : ℕ} {t : AllocatorRpi4} (rest : RunRpi4)
      → PlacedRpi4 base r s p t
      → IsServedRpi4 base t rest
      → IsServedRpi4 base s (cons_rpi4 (record { request = r; start = p }) rest)
  unfolding IsServedRpi4
  cons_rpi4-IsServedRpi4 (RunRpi4.served bs u) here (later, restored) =
      (more_ServedRpi4 bs u here later, restored ∙ here.restored)
  cons_rpi4-IsServedRpi4 (RunRpi4.stopped bs r u) here (later, masked, full) =
      (more_ServedRpi4 bs u here later, masked, full)

  answered :
      (r : Request) (rs : List Request) (s : AllocatorRpi4) (got : ResultRpi4)
      → s.used ≤ heap_bytes_rpi4
      → IsPlacedRpi4 base r s got
      → ((t : AllocatorRpi4) → t.used ≤ heap_bytes_rpi4 → IsServedRpi4 base t (run_rpi4 base rs t))
      → IsServedRpi4 base s (elim got [
        | ResultRpi4.fatal requested used t ↦ RunRpi4.stopped [] r t
        | ResultRpi4.allocated p t ↦
            cons_rpi4 (record { request = r; start = p }) (run_rpi4 base rs t)
      ])
  unfolding IsServedRpi4
  answered r rs s (ResultRpi4.fatal requested u t) used (e, full) later =
      let masked : t.irq_masked ≡ true = ap AllocatorRpi4.irq_masked e in
      let same : t.used ≡ s.used = ap AllocatorRpi4.used e in
      (none_ServedRpi4 s t true used e, masked, omega (arith, same, full))
  answered r rs s (ResultRpi4.allocated p t) used here later =
      cons_rpi4-IsServedRpi4 (run_rpi4 base rs t) here (later t here.inside)

-- Take a 64-bit heap whose end lies more than a page below 2 ^ 64, with its used part within it,
-- and any sequence of buffer and guarded-stack requests, each of less than 2 ^ 63 bytes. The blocks
-- that are served and the guard pages below the stacks follow one another without overlap from the
-- old end of the used part to the new one, which is within the heap; buffers are aligned to 8 bytes
-- from the heap's start and stacks to a page; every byte of every block is 0; no byte below the old
-- end has changed; the pages that were installed as guards are those right below the stacks, in
-- order; and the counter has counted the blocks, modulo 2 ^ 64. Either all requests are served and
-- IRQs are masked or not as before, or it stops with IRQs masked at a request that with its guard
-- page and 4095 bytes does not fit behind the blocks.
pub run_rpi4-IsServedRpi4 :
    (base : ℕ) (rs : List Request) (s : AllocatorRpi4)
    → base + heap_bytes_rpi4 + 4096 < 2 ^ 64
    → All (λ r. size r < 2 ^ 63) rs
    → s.used ≤ heap_bytes_rpi4
    → IsServedRpi4 base s (run_rpi4 base rs s)
unfolding run_rpi4
run_rpi4-IsServedRpi4 base [] s low fits used =
    unfold IsServedRpi4 in (none_ServedRpi4 base s s s.irq_masked used refl, refl)
run_rpi4-IsServedRpi4 base (r ∷ rs) s low (fit, fits) used =
    answered base r rs s (call_rpi4 base r s) used (call_rpi4-IsPlacedRpi4 base low r s used fit)
      (λ t h. run_rpi4-IsServedRpi4 base rs t low fits h)
