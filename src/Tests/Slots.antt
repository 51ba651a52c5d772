-- ===== src/Tests/Slots.antt =====
-- Tests of the slot-state record's block.
use dhruvaos.Base.{◌≡◌, refl, some, none, true, arith, set}
use dhruvaos.Crc32.{crc32_bytes, crc_bytes, crc_bits, crc_bit}
use dhruvaos.Slot.{at, write_u32_le, parse_slot_state, copy_digests, write_fields, build_slot_state}
use dhruvaos.Slot.RoundTrip.{parse-build, length-build}
use dhruvaos.Slot.Corrupt.{parse_corrupt, parse_padding}
use dhruvaos.Tests.{slot_state, slot_state-IsSlotState, all_bytes-All, all_bytes}

parse-build_example : parse_slot_state (build_slot_state slot_state) ≡ some slot_state
parse-build_example = parse-build slot_state-IsSlotState

built_bytes : all_bytes (build_slot_state slot_state) ≡ true
unfolding build_slot_state write_fields write_u32_le copy_digests crc32_bytes crc_bytes crc_bits
    crc_bit
built_bytes = refl

byte_20 : at (build_slot_state slot_state) 20 ≡ 1
unfolding build_slot_state write_fields write_u32_le copy_digests
byte_20 = refl

-- Slot A's ready byte, cleared by a fault of the card.
parse_corrupt_example : parse_slot_state (set (build_slot_state slot_state) 20 0) ≡ none
parse_corrupt_example =
    parse_corrupt (build_slot_state slot_state) 20 0 (all_bytes-All _ built_bytes) (omega arith)
      (omega arith) (omega (arith, length-build slot_state))
      (λ e. absurd (omega (arith, e, byte_20))) parse-build_example

parse_padding_example :
    parse_slot_state (set (build_slot_state slot_state) 300 5)
    ≡ parse_slot_state (build_slot_state slot_state)
parse_padding_example = parse_padding (build_slot_state slot_state) 300 5 (omega arith)
