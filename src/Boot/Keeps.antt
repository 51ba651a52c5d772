-- ===== src/Boot/Keeps.antt =====
-- Which blocks of the card `stage0_main` touches.
use dhruvaos.Base.{
  ℕ, zero, suc, ◌+◌, ◌-◌, ◌/◌, ◌<◌, ◌≤◌, ◌≡◌, refl, inl, inr, ◌⊎◌, Option, none, some, List, [],
  ◌++◌, arith, take, reads, ltb, ◌==◌, ◌||◌, if◌then◌else◌, Bool-cases, Option-cases,
}
use dhruvaos.Slot.{SlotState, build_slot_state}
use dhruvaos.Sha256.{Ctx, sha256_init, sha256_finalize}
use dhruvaos.Boot.{
  slot_state_block_a, slot_state_block_b, slot_size_bytes, choose, update_record, target_of,
  same_digest, hash_chunks, handoff,
}
use dhruvaos.Boot.Run
use dhruvaos.Boot.Run.{
  SdCard, Message, World, Outcome, Loaded, say, load_blocks, verify_and_jump, load_and_jump,
  boot_slot, read_state, boot_records, stage0_main, stage0_fault,
}

abbrev pub IsSlotStateBlock : ℕ → Type 0
IsSlotStateBlock n = (n ≡ 9216) ⊎ (n ≡ 9217)

abbrev pub IsSlotBlock : ℕ → Type 0
IsSlotBlock n = (10240 ≤ n) × (n < 34816)

-- A property of the card that the initialization keeps, reads of the blocks of the records and of
-- the two slots, and writes of a record to one of the blocks for it.
pub record IsKept (sd : SdCard) (P : sd.Card → Type 0) : Type 0 where
  pub init_keeps : (c : sd.Card) → P c → P (sd.init c).1
  pub read_keeps :
      (n : ℕ) (c : sd.Card) → IsSlotStateBlock n ⊎ IsSlotBlock n → P c → P (sd.read_block n c).1
  pub write_keeps :
      (n : ℕ) (s : SlotState) (c : sd.Card)
      → IsSlotStateBlock n
      → P c
      → P (sd.write_block n (build_slot_state s) c).1

choose-IsSlotStateBlock :
    (a b : Option SlotState) {chosen : SlotState} {stale : ℕ}
    → choose a b ≡ some (chosen, stale)
    → IsSlotStateBlock stale
unfolding choose
choose-IsSlotStateBlock (some a) (some b) h = ground arith
choose-IsSlotStateBlock (some a) none h = inr (cc h)
choose-IsSlotStateBlock none (some b) h = inl (cc h)
choose-IsSlotStateBlock none none h = absurd (cc h)

-- A slot's payload of at most 6 MiB stays within the slots.
target_of-IsSlotBlock :
    (s : SlotState) (i : ℕ)
    → (target_of s).len_bytes ≤ slot_size_bytes
    → i < ((target_of s).len_bytes + 512 - 1) / 512
    → IsSlotBlock ((target_of s).base_block + i)
unfolding target_of
target_of-IsSlotBlock s i le lt = ground arith

module _ (sd : SdCard) (P : sd.Card → Type 0) (keeps : IsKept sd P) where
  -- The card that an outcome leaves has the property.
  abbrev pub Leaves : Outcome sd → Type 0
  Leaves (Run.Outcome.halted code w) = P w.card
  Leaves (Run.Outcome.jumped r0 memory w) = P w.card
  Leaves Run.Outcome.stuck = Unit

  abbrev LoadLeaves : Loaded sd → Type 0
  LoadLeaves (Run.Loaded.loaded memory w) = P w.card
  LoadLeaves (Run.Loaded.failed i w) = P w.card

  load_blocks-LoadLeaves :
      (base left i n : ℕ) (w : World sd) (memory : List ℕ)
      → i + left ≡ n
      → ((j : ℕ) → j < n → IsSlotBlock (base + j))
      → P w.card
      → LoadLeaves (load_blocks sd base left i w memory)
  unfolding load_blocks
  load_blocks-LoadLeaves base zero i n w memory e within h = h
  load_blocks-LoadLeaves base (suc left) i n w memory e within h =
      let after = keeps.read_keeps (base + i) w.card (inr (within i (omega arith))) h in
      elim (Option-cases (sd.read_block (base + i) w.card).0) [
        | inl unread ↦ rw (unread, LoadLeaves) after
        | inr (block, got) ↦
            rw (got, LoadLeaves)
              (load_blocks-LoadLeaves base left (i + 1) n _ (memory ++ reads block 0 0 512)
                (omega arith) within after)
      ]

  after_hash-Leaves :
      (s : SlotState) (memory expect : List ℕ) (w : World sd) (got : Option (List ℕ))
      → P w.card
      → Leaves (elim got [
        | none ↦ Run.Outcome.stuck
        | some actual ↦
            if same_digest 32 0 actual expect
            then Run.Outcome.jumped (handoff s) memory (say sd Message.verified w)
            else stage0_fault sd 0xDEAD0006 (say sd Message.mismatch w)
      ])
  unfolding stage0_fault
  after_hash-Leaves s memory expect w none h = tt
  after_hash-Leaves s memory expect w (some actual) h =
      elim (Bool-cases (same_digest 32 0 actual expect)) [
        | inl e ↦ rw (e, Leaves) h
        | inr e ↦ rw (e, Leaves) h
      ]

  after_load-Leaves :
      (garbage : Ctx) (s : SlotState) (r : Loaded sd)
      → LoadLeaves r
      → Leaves (elim r [
        | Run.Loaded.failed i w' ↦ stage0_fault sd 0xDEAD0004 (say sd (Run.read_failed i) w')
        | Run.Loaded.loaded memory w' ↦ verify_and_jump sd garbage s memory w'
      ])
  unfolding verify_and_jump stage0_fault
  after_load-Leaves garbage s (Run.Loaded.loaded memory w) h =
      let t = target_of s in
      let ctx = hash_chunks 262144 t.len_bytes (sha256_init garbage) (take t.len_bytes memory) in
      after_hash-Leaves s memory t.expect_sha256 w (sha256_finalize ctx) h
  after_load-Leaves garbage s (Run.Loaded.failed i w) h = h

  load-Leaves :
      (garbage : Ctx) (s : SlotState) (w : World sd)
      → P w.card
      → Leaves (load_and_jump sd garbage s w)
  unfolding load_and_jump stage0_fault
  load-Leaves garbage s w h =
      let len = (target_of s).len_bytes in
      elim (Bool-cases (len == 0 || ltb slot_size_bytes len)) [
        | inl e ↦ rw (e, Leaves) h
        | inr e ↦
            let le : len ≤ slot_size_bytes = ground arith in
            rw e (
              after_load-Leaves garbage s _ (
                load_blocks-LoadLeaves (target_of s).base_block ((len + 512 - 1) / 512) 0
                  ((len + 512 - 1) / 512) _ [] (omega arith)
                  (λ j lt. target_of-IsSlotBlock s j le lt) h))
      ]

  boot_slot-Leaves :
      (garbage : Ctx) (chosen : SlotState) (stale : ℕ) (w : World sd)
      → IsSlotStateBlock stale
      → P w.card
      → Leaves (boot_slot sd garbage chosen stale w)
  unfolding boot_slot
  boot_slot-Leaves garbage chosen stale w place h =
      let after = keeps.write_keeps stale (update_record chosen) w.card place h in
      let raw = build_slot_state (update_record chosen) in
      elim (Bool-cases (sd.write_block stale raw w.card).0) [
        | inl e ↦ rw e (load-Leaves garbage (update_record chosen) _ after)
        | inr e ↦ rw e (load-Leaves garbage (update_record chosen) _ after)
      ]

  records-Leaves : (garbage : Ctx) (w : World sd) → P w.card → Leaves (boot_records sd garbage w)
  unfolding boot_records read_state stage0_fault
  records-Leaves garbage w h =
      let after_a = keeps.read_keeps slot_state_block_a w.card (inl (inl refl)) h in
      let after_b = keeps.read_keeps slot_state_block_b _ (inl (inr refl)) after_a in
      let a = read_state sd slot_state_block_a w.card in
      let b = read_state sd slot_state_block_b a.1 in
      elim (Option-cases (choose a.0 b.0)) [
        | inl e ↦ rw (e, Leaves) after_b
        | inr ((chosen, stale), e) ↦
            rw (e, Leaves)
              (boot_slot-Leaves garbage chosen stale _ (choose-IsSlotStateBlock a.0 b.0 e) after_b)
      ]

-- Take any property of the card that holds before, and that is kept by the initialization, by reads
-- of block 9216, of block 9217 and of blocks from 10240 to 34815, and by writes of the block of a
-- record to 9216 or 9217. When `stage0_main` halts or jumps, the card has it still, whatever else
-- the card may do on other reads and writes.
pub stage0_main-Leaves :
    (sd : SdCard) (P : sd.Card → Type 0) (garbage : Ctx) (w : World sd) (keeps : IsKept sd P)
    → P w.card
    → Leaves sd P keeps (stage0_main sd garbage w)
unfolding stage0_main stage0_fault
stage0_main-Leaves sd P garbage w keeps h =
    let after = keeps.init_keeps w.card h in
    elim (Bool-cases ((sd.init w.card).0 == 0)) [
      | inl e ↦ rw (e, Leaves) (records-Leaves sd P keeps garbage _ after)
      | inr e ↦ rw (e, Leaves) after
    ]
