-- ===== src/Boot/Bytes.antt =====
-- `stage0_main` over a card that returns bytes starts the kernel with a memory of bytes.
use dhruvaos.Base.{
  ℕ, zero, suc, ◌+◌, ◌-◌, ◌/◌, ◌≡◌, inl, inr, Option, none, some, List, [], ◌++◌, arith, take,
  reads, ltb, ◌==◌, ◌||◌, if◌then◌else◌, Bool-cases, Option-cases, All, All-get_or, All-append,
  IsByte,
}
use dhruvaos.Slot.{SlotState}
use dhruvaos.Sha256.{Ctx, sha256_init, sha256_finalize}
use dhruvaos.Boot.{
  slot_state_block_a, slot_state_block_b, slot_size_bytes, choose, update_record, target_of,
  same_digest, hash_chunks, handoff,
}
use dhruvaos.Boot.Run
use dhruvaos.Boot.Run.{
  SdCard, World, Outcome, Loaded, say, load_blocks, verify_and_jump, load_and_jump, boot_slot,
  read_state, boot_records, stage0_main, stage0_fault,
}

-- A block that can be read is bytes.
abbrev pub GivesBytes : SdCard → Type 0
GivesBytes sd =
    (n : ℕ) (c : sd.Card) (block : List ℕ) → (sd.read_block n c).0 ≡ some block → All IsByte block

pub reads-IsByte : (xs : List ℕ) (i n : ℕ) → All IsByte xs → All IsByte (reads xs 0 i n)
reads-IsByte xs i zero h = tt
reads-IsByte xs i (suc n) h =
    (All-get_or IsByte xs i 0 h (omega arith), reads-IsByte xs (i + 1) n h)

module _ (sd : SdCard) (gives : GivesBytes sd) where
  abbrev LoadsBytes : Loaded sd → Type 0
  LoadsBytes (Run.Loaded.loaded memory w) = All IsByte memory
  LoadsBytes (Run.Loaded.failed i w) = Unit

  abbrev pub JumpsToBytes : Outcome sd → Type 0
  JumpsToBytes (Run.Outcome.halted code w) = Unit
  JumpsToBytes (Run.Outcome.jumped r0 memory w) = All IsByte memory
  JumpsToBytes Run.Outcome.stuck = Unit

  load_blocks-LoadsBytes :
      (base left i : ℕ) (w : World sd) (memory : List ℕ)
      → All IsByte memory
      → LoadsBytes (load_blocks sd base left i w memory)
  unfolding load_blocks
  load_blocks-LoadsBytes base zero i w memory h = h
  load_blocks-LoadsBytes base (suc left) i w memory h =
      elim (Option-cases (sd.read_block (base + i) w.card).0) [
        | inl e ↦ rw (e, LoadsBytes) tt
        | inr (block, e) ↦
            rw (e, LoadsBytes)
              (load_blocks-LoadsBytes base left (i + 1) _ (memory ++ reads block 0 0 512) (
                All-append IsByte memory (reads block 0 0 512) h
                  (reads-IsByte block 0 512 (gives (base + i) w.card block e))))
      ]

  after_hash-JumpsToBytes :
      (s : SlotState) (memory expect : List ℕ) (w : World sd) (got : Option (List ℕ))
      → All IsByte memory
      → JumpsToBytes (elim got [
        | none ↦ Run.Outcome.stuck
        | some actual ↦
            if same_digest 32 0 actual expect
            then Run.Outcome.jumped (handoff s) memory (say sd Run.Message.verified w)
            else stage0_fault sd 0xDEAD0006 (say sd Run.Message.mismatch w)
      ])
  unfolding stage0_fault
  after_hash-JumpsToBytes s memory expect w none h = tt
  after_hash-JumpsToBytes s memory expect w (some actual) h =
      elim (Bool-cases (same_digest 32 0 actual expect)) [
        | inl e ↦ rw (e, JumpsToBytes) h
        | inr e ↦ rw e tt
      ]

  after_load-JumpsToBytes :
      (garbage : Ctx) (s : SlotState) (r : Loaded sd)
      → LoadsBytes r
      → JumpsToBytes (elim r [
        | Run.Loaded.failed i w' ↦ stage0_fault sd 0xDEAD0004 (say sd (Run.read_failed i) w')
        | Run.Loaded.loaded memory w' ↦ verify_and_jump sd garbage s memory w'
      ])
  unfolding verify_and_jump stage0_fault
  after_load-JumpsToBytes garbage s (Run.Loaded.loaded memory w) h =
      let t = target_of s in
      let ctx = hash_chunks 262144 t.len_bytes (sha256_init garbage) (take t.len_bytes memory) in
      after_hash-JumpsToBytes s memory t.expect_sha256 w (sha256_finalize ctx) h
  after_load-JumpsToBytes garbage s (Run.Loaded.failed i w) h = tt

  load-JumpsToBytes :
      (garbage : Ctx) (s : SlotState) (w : World sd) → JumpsToBytes (load_and_jump sd garbage s w)
  unfolding load_and_jump stage0_fault
  load-JumpsToBytes garbage s w =
      let len = (target_of s).len_bytes in
      elim (Bool-cases (len == 0 || ltb slot_size_bytes len)) [
        | inl e ↦ rw e tt
        | inr e ↦ rw e (
            after_load-JumpsToBytes garbage s _
              (load_blocks-LoadsBytes (target_of s).base_block ((len + 512 - 1) / 512) 0 _ [] tt))
      ]

  records-JumpsToBytes : (garbage : Ctx) (w : World sd) → JumpsToBytes (boot_records sd garbage w)
  unfolding boot_records boot_slot stage0_fault
  records-JumpsToBytes garbage w =
      let a = read_state sd slot_state_block_a w.card in
      elim (Option-cases (choose a.0 (read_state sd slot_state_block_b a.1).0)) [
        | inl e ↦ rw (e, JumpsToBytes) tt
        | inr ((chosen, stale), e) ↦
            rw (e, JumpsToBytes) (load-JumpsToBytes garbage (update_record chosen) _)
      ]

  pub stage0_main-JumpsToBytes :
      (garbage : Ctx) (w : World sd) → JumpsToBytes (stage0_main sd garbage w)
  unfolding stage0_main stage0_fault
  stage0_main-JumpsToBytes garbage w = elim (Bool-cases ((sd.init w.card).0 == 0)) [
    | inl e ↦ rw e (records-JumpsToBytes garbage _)
    | inr e ↦ rw e tt
  ]
