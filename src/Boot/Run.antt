-- ===== src/Boot/Run.antt =====
-- The whole of `stage0_main`, over a card that it reads and writes through boot/stage0/sdread.c, and
-- the lines that it prints, which are entries of a log: Uart/Boots has the calls that print them.
-- `STAGE0_PREJUMP_WATCHDOG_FOR_REAL_HARDWARE` is 0, as checked in.
use dhruvaos.Base.{
  ℕ, zero, suc, ◌+◌, ◌-◌, ◌/◌, Bool, ◌||◌, Option, none, some, List, [], ◌∷◌, ◌++◌, take, reads,
  ltb, ◌==◌, if◌then◌else◌,
}
use dhruvaos.Slot.{SlotState, parse_slot_state, build_slot_state}
use dhruvaos.Sha256.{Ctx, sha256_init, sha256_finalize}
use dhruvaos.Boot.{
  block_size, slot_state_block_a, slot_state_block_b, slot_size_bytes, choose, limit_of,
  count_attempt, try_fallback, update_record, target_of, same_digest, hash_chunks, handoff,
}

-- What `stage0_main` uses of the SD driver: a state, and three functions that return a status. A
-- block that cannot be read is `none`; `true` says that a block was written.
pub record SdCard : Type 1 where
  pub Card : Type 0
  pub init : Card → ℕ × Card
  pub read_block : ℕ → Card → Option (List ℕ) × Card
  pub write_block : ℕ → List ℕ → Card → Bool × Card

-- The lines on the UART, each with what it shows.
pub data Message : Type 0 where
  starting : Message
  init_failed : ℕ → Message
  no_record : Message
  attempt : ℕ → ℕ → ℕ → Message
  falling_back : ℕ → Message
  not_ready : Message
  write_back_failed : ℕ → Message
  invalid_length : Message
  loading : ℕ → Message
  read_failed : ℕ → Message
  mismatch : Message
  verified : Message
  fatal : ℕ → Message

-- `(char)`: which slot letter a line shows, 0 for A.
abbrev letter : SlotState → ℕ
letter s = if s.active_slot == 0 then 0 else 1

-- The lines of steps 2 and 3.
unfoldable pub attempt_lines : SlotState → List Message
attempt_lines chosen =
    let counted = count_attempt chosen in
    let (s, fell_back) = try_fallback chosen in
    attempt (letter counted) counted.attempt_count (limit_of counted)
    ∷ (if ltb (limit_of counted) counted.attempt_count
        then (if fell_back then falling_back (letter s) ∷ [] else not_ready ∷ [])
        else [])

module _ (sd : SdCard) where
  open sd use {Card, init, read_block, write_block}

  pub record World : Type 0 where
    pub card : Card
    pub console : List Message

  -- `jumped` has the word in `r0` and the bytes from the load address on. `stuck` is a padding loop
  -- that does not end.
  pub data Outcome : Type 0 where
    halted : ℕ → World → Outcome
    jumped : ℕ → List ℕ → World → Outcome
    stuck : Outcome

  abbrev pub say : Message → World → World
  say m w = record w { console = w.console ++ m ∷ [] }

  -- `stage0_fault`
  unfoldable pub stage0_fault : ℕ → World → Outcome
  stage0_fault code w = halted code (say (fatal code) w)

  -- What the loading loop ends with: the bytes at the load address, or the offset that failed.
  pub data Loaded : Type 0 where
    loaded : List ℕ → World → Loaded
    failed : ℕ → World → Loaded

  -- The loading loop at block `i` with `left` blocks to go; each block is copied behind `memory`.
  unfoldable pub load_blocks : ℕ → ℕ → ℕ → World → List ℕ → Loaded
  load_blocks base zero i w memory = loaded memory w
  load_blocks base (suc left) i w memory =
      let (got, card) = read_block (base + i) w.card in
      let w' : World = record w { card = card } in
      elim got [
        | none ↦ failed i w'
        | some block ↦ load_blocks base left (i + 1) w' (memory ++ reads block 0 0 block_size)
      ]

  -- The hash, the comparison and the jump; `garbage` is the context on the stack before its `init`.
  unfoldable pub verify_and_jump : Ctx → SlotState → List ℕ → World → Outcome
  verify_and_jump garbage s memory w =
      let t = target_of s in
      let ctx = hash_chunks 262144 t.len_bytes (sha256_init garbage) (take t.len_bytes memory) in
      elim (sha256_finalize ctx) [
        | none ↦ stuck
        | some actual ↦
            if same_digest 32 0 actual t.expect_sha256
            then jumped (handoff s) memory (say verified w)
            else stage0_fault 0xDEAD0006 (say mismatch w)
      ]

  unfoldable pub load_and_jump : Ctx → SlotState → World → Outcome
  load_and_jump garbage s w =
      let t = target_of s in
      let blocks = (t.len_bytes + block_size - 1) / block_size in
      if t.len_bytes == 0 || ltb slot_size_bytes t.len_bytes
      then stage0_fault 0xDEAD0003 (say invalid_length w)
      else elim (load_blocks t.base_block blocks 0 (say (loading t.len_bytes) w) []) [
        | failed i w' ↦ stage0_fault 0xDEAD0004 (say (read_failed i) w')
        | loaded memory w' ↦ verify_and_jump garbage s memory w'
      ]

  -- Steps 2 to 6, for the record and the stale block that were chosen.
  unfoldable pub boot_slot : Ctx → SlotState → ℕ → World → Outcome
  boot_slot garbage chosen stale_block w =
      let s = update_record chosen in
      let (written, card) = write_block stale_block (build_slot_state s) w.card in
      let w' : World = record { card = card; console = w.console ++ attempt_lines chosen } in
      load_and_jump garbage s (if written then w' else say (write_back_failed stale_block) w')

  -- A slot-state record, if the block can be read and holds one.
  unfoldable pub read_state : ℕ → Card → Option SlotState × Card
  read_state block card =
      let (got, card') = read_block block card in
      (elim got [ none ↦ none | some raw ↦ parse_slot_state raw ], card')

  -- The two slot-state blocks, and the choice.
  unfoldable pub boot_records : Ctx → World → Outcome
  boot_records garbage w =
      let (a, card_a) = read_state slot_state_block_a w.card in
      let (b, card_b) = read_state slot_state_block_b card_a in
      let w' : World = record w { card = card_b } in
      elim (choose a b) [
        | none ↦ stage0_fault 0xDEAD0002 (say no_record w')
        | some (chosen, stale_block) ↦ boot_slot garbage chosen stale_block w'
      ]

  unfoldable pub stage0_main : Ctx → World → Outcome
  stage0_main garbage w =
      let w1 = say starting w in
      let (rc, card) = init w1.card in
      let w2 : World = record w1 { card = card } in
      if rc == 0 then boot_records garbage w2 else stage0_fault 0xDEAD0001 (say (init_failed rc) w2)
