-- ===== src/Boot/Faults.antt =====
-- Why `stage0_main` halts: the cause behind the code of each call of `stage0_fault`.
use dhruvaos.Base.{
  ℕ, ◌+◌, ◌*◌, ◌<◌, ◌≤◌, ◌≡◌, ◌≢◌, ◌⊎◌, none, some, List, [], ◌++◌, length, take, reads,
}
use dhruvaos.Slot.{SlotState, at, parse_slot_state}
use dhruvaos.Sha256.{Ctx}
use dhruvaos.Sha256.Fips.{fips_sha256}
use dhruvaos.Boot.{slot_state_block_a, slot_state_block_b, update_record, target_of, Target}
use dhruvaos.Boot.Run
use dhruvaos.Boot.Run.{SdCard, Outcome, Loaded}
use dhruvaos.Boot.Verify.{Recorded}
use dhruvaos.Boot.Bytes.{GivesBytes}

module _ (sd : SdCard) where
  -- The memory holds the first 512 bytes of each block from `base` on, as the card returned them.
  pub data IsLoad (base : ℕ) : ℕ → List ℕ → Type 0 where
    no_blocks : IsLoad base 0 []
    one_more :
        {i : ℕ} {memory : List ℕ} (card : sd.Card) (block : List ℕ)
        → IsLoad base i memory
        → (sd.read_block (base + i) card).0 ≡ some block
        → IsLoad base (i + 1) (memory ++ reads block 0 0 512)

  -- The loading loop has read all blocks, or it stops at one that cannot be read.
  abbrev LoadEnds : ℕ → ℕ → Loaded sd → Type 0
  LoadEnds base n (Run.Loaded.loaded memory w) = IsLoad base n memory
  LoadEnds base n (Run.Loaded.failed i w) =
      (i < n) × (card : sd.Card) × ((sd.read_block (base + i) card).0 ≡ none)

  -- Block `n` cannot be read, or holds no record.
  abbrev pub IsUnrecorded : ℕ → sd.Card → Type 0
  IsUnrecorded n card =
      (block : List ℕ) → (sd.read_block n card).0 ≡ some block → parse_slot_state block ≡ none

  -- What is behind the code of a halt.
  pub data Cause (start : sd.Card) : ℕ → Type 0 where
    no_card : (sd.init start).0 ≢ 0 → Cause start 0xDEAD0001
    no_record :
        IsUnrecorded slot_state_block_a (sd.init start).1
        → IsUnrecorded slot_state_block_b (sd.read_block slot_state_block_a (sd.init start).1).1
        → Cause start 0xDEAD0002
    bad_length :
        {chosen : SlotState}
        → Recorded sd chosen
        → ((target_of (update_record chosen)).len_bytes ≡ 0)
          ⊎ (12288 * 512 < (target_of (update_record chosen)).len_bytes)
        → Cause start 0xDEAD0003
    unreadable :
        {chosen : SlotState} (i : ℕ) (card : sd.Card)
        → Recorded sd chosen
        → i * 512 < (target_of (update_record chosen)).len_bytes
        → (sd.read_block ((target_of (update_record chosen)).base_block + i) card).0 ≡ none
        → Cause start 0xDEAD0004
    wrong_digest :
        {chosen : SlotState} {n : ℕ} {memory : List ℕ} (j : ℕ)
        → Recorded sd chosen
        → (target_of (update_record chosen)).len_bytes ≤ n * 512
        → IsLoad (target_of (update_record chosen)).base_block n memory
        → j < 32
        → at (fips_sha256 (take (target_of (update_record chosen)).len_bytes memory)) j
          ≢ at (target_of (update_record chosen)).expect_sha256 j
        → Cause start 0xDEAD0006

  -- A halt has its cause.
  abbrev pub IsExplained : sd.Card → Outcome sd → Type 0
  IsExplained start (Run.Outcome.halted code w) = Cause start code
  IsExplained start (Run.Outcome.jumped r0 memory w) = Unit
  IsExplained start Run.Outcome.stuck = ⊥

module _ (sd : SdCard) (gives : GivesBytes sd) (garbage : Ctx) (size : length garbage.buf ≡ 64)
    (start : sd.Card) where
  module _ {chosen : SlotState} (found : Recorded sd chosen) where
    abbrev target : Target
    target = target_of (update_record chosen)
