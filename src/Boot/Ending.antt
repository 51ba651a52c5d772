-- ===== src/Boot/Ending.antt =====
-- The last line that a run of `stage0_main` prints.
use dhruvaos.Base.{
  Option, none, some, if◌then◌else◌, ℕ, ◌||◌, ◌≡◌, refl, List, [], ◌∷◌, ◌++◌, inl, inr, Bool-cases,
  Option-cases, ◌==◌, ltb, take,
}
use dhruvaos.Sha256.{Ctx, sha256_init, sha256_finalize}
use dhruvaos.Slot.{SlotState}
use dhruvaos.Boot.{
  slot_size_bytes, slot_state_block_a, slot_state_block_b, target_of, hash_chunks, same_digest,
  choose, update_record, handoff,
}
use dhruvaos.Boot.Run.{
  SdCard, Message, World, Outcome, Loaded, say, stage0_fault, load_blocks, verify_and_jump,
  load_and_jump, boot_slot, read_state, boot_records, stage0_main,
}
use dhruvaos.Boot.Run

module _ (sd : SdCard) where
  -- The console ends with this line.
  abbrev pub EndsWith : Message → World sd → Type 0
  EndsWith m w = (before : List Message) × (w.console ≡ before ++ m ∷ [])

  -- A halt ends with the line of its code, a jump with the line that announces it.
  abbrev pub IsEnded : Outcome sd → Type 0
  IsEnded (Run.Outcome.halted code w) = EndsWith (Message.fatal code) w
  IsEnded (Run.Outcome.jumped r0 memory w) = EndsWith Message.verified w
  IsEnded Run.Outcome.stuck = Unit

  fault-IsEnded : (code : ℕ) (w : World sd) → IsEnded (stage0_fault sd code w)
  unfolding stage0_fault
  fault-IsEnded code w = (w.console, refl)

  after_hash-IsEnded :
      (s : SlotState) (memory expect : List ℕ) (w : World sd) (got : Option (List ℕ))
      → IsEnded (elim got [
        | none ↦ Run.Outcome.stuck
        | some actual ↦
            if same_digest 32 0 actual expect
            then Run.Outcome.jumped (handoff s) memory (say sd Message.verified w)
            else stage0_fault sd 0xDEAD0006 (say sd Message.mismatch w)
      ])
  after_hash-IsEnded s memory expect w none = tt
  after_hash-IsEnded s memory expect w (some actual) =
      elim (Bool-cases (same_digest 32 0 actual expect)) [
        | inl e ↦ rw (e, IsEnded) (w.console, refl)
        | inr e ↦ rw e (fault-IsEnded 0xDEAD0006 (say sd Message.mismatch w))
      ]

  verify-IsEnded :
      (garbage : Ctx) (s : SlotState) (memory : List ℕ) (w : World sd)
      → IsEnded (verify_and_jump sd garbage s memory w)
  unfolding verify_and_jump
  verify-IsEnded garbage s memory w =
      let t = target_of s in
      let ctx = hash_chunks 262144 t.len_bytes (sha256_init garbage) (take t.len_bytes memory) in
      after_hash-IsEnded s memory t.expect_sha256 w (sha256_finalize ctx)

  after_load-IsEnded :
      (garbage : Ctx) (s : SlotState) (r : Loaded sd)
      → IsEnded (elim r [
        | Run.Loaded.failed i w' ↦ stage0_fault sd 0xDEAD0004 (say sd (Run.read_failed i) w')
        | Run.Loaded.loaded memory w' ↦ verify_and_jump sd garbage s memory w'
      ])
  after_load-IsEnded garbage s (Run.Loaded.loaded memory w) = verify-IsEnded garbage s memory w
  after_load-IsEnded garbage s (Run.Loaded.failed i w) = fault-IsEnded 0xDEAD0004 _

  load-IsEnded :
      (garbage : Ctx) (s : SlotState) (w : World sd) → IsEnded (load_and_jump sd garbage s w)
  unfolding load_and_jump
  load-IsEnded garbage s w =
      let len = (target_of s).len_bytes in
      elim (Bool-cases (len == 0 || ltb slot_size_bytes len)) [
        | inl e ↦ rw e (fault-IsEnded 0xDEAD0003 _)
        | inr e ↦ rw e (after_load-IsEnded garbage s _)
      ]

  records-IsEnded : (garbage : Ctx) (w : World sd) → IsEnded (boot_records sd garbage w)
  unfolding boot_records boot_slot
  records-IsEnded garbage w = elim (Option-cases (choose a b)) [
    | inl e ↦ rw (e, IsEnded) (fault-IsEnded 0xDEAD0002 _)
    | inr ((chosen, stale), e) ↦ rw (e, IsEnded) (load-IsEnded garbage (update_record chosen) _)
  ]
    where
      a : Option SlotState
      a = (read_state sd slot_state_block_a w.card).0

      b : Option SlotState
      b = (read_state sd slot_state_block_b (read_state sd slot_state_block_a w.card).1).0

  pub stage0_main-IsEnded : (garbage : Ctx) (w : World sd) → IsEnded (stage0_main sd garbage w)
  unfolding stage0_main
  stage0_main-IsEnded garbage w = elim (Bool-cases ((sd.init w.card).0 == 0)) [
    | inl e ↦ rw e (records-IsEnded garbage _)
    | inr e ↦ rw e (fault-IsEnded 0xDEAD0001 _)
  ]
