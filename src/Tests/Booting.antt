-- ===== src/Tests/Booting.antt =====
-- Tests of the boot: the choice of a record, the attempts, the reset reason, and a whole run.
use dhruvaos.Base.{
  All, inl, ◌==◌, if◌then◌else◌, ℕ, ◌≡◌, ◌≤◌, ◌⊎◌, refl, List, [], ◌∷◌, some, none, true, arith,
  replicate,
}
use dhruvaos.Crc32.{crc32_bytes, crc_bytes, crc_bits, crc_bit}
use dhruvaos.Sha256.{
  sha256_init, sha256_finalize, sha256_update, sha256_block, compress, load_words, load_word,
  extend_words, extend_word, rounds, round, rotr32, fill, direct_blocks, put_all, flush, top_up,
  pad_zeros, finish,
}
use dhruvaos.Slot.{
  SlotState, read_u32_le, write_u32_le, read_fields, parse_slot_state, copy_digests, write_fields,
  build_slot_state,
}
use dhruvaos.Slot.RoundTrip.{parse-build}
use dhruvaos.Boot.{
  slot_state_block_a, slot_state_block_b, choose, limit_of, other_ready, try_fallback, reset_reason,
  update_record, target_of, same_digest, hash_chunks, handoff, reason_clean_reboot, reason_power_on,
  reason_watchdog_or_hang,
}
use dhruvaos.Boot.Keeps.{IsSlotStateBlock, IsSlotBlock, IsKept, Leaves, stage0_main-Leaves}
use dhruvaos.Boot.Fallback.{boots, other_slot, boots_fall_back}
use dhruvaos.Boot.Reason.{clean_reboot_sticks, fallback_hang_unreported, hang_reported}
use dhruvaos.Boot.Select.{
  Blocks, choose_from, overwrite, IsOlder, choose_from-newest, choose_from-cut,
}
use dhruvaos.Boot.PingPong.{Boots, boots-recover}
use dhruvaos.Boot.Run.{
  SdCard, World, Outcome, load_blocks, verify_and_jump, load_and_jump, boot_slot, read_state,
  boot_records, stage0_main, attempt_lines, stage0_fault,
}
use dhruvaos.Boot.Verify.{IsSound, stage0_main-IsSound}
use dhruvaos.Tests.{stack_ctx, slot_state, slot_state-IsSlotState, test_sd}

abbrev erased : List ℕ
erased = replicate 512 0

-- A record in the first block, and none in the second.
abbrev one_record : Blocks
one_record = record { block_a = build_slot_state slot_state; block_b = erased }

erased_parse : parse_slot_state erased ≡ none
unfolding parse_slot_state read_u32_le
erased_parse = refl

one_record_choice : choose_from one_record ≡ some (slot_state, slot_state_block_b)
unfolding choose_from choose
one_record_choice = rw (parse-build slot_state-IsSlotState, erased_parse) refl

choose_from-newest_example :
    ((slot_state_block_b ≡ slot_state_block_b)
      × (parse_slot_state (build_slot_state slot_state) ≡ some slot_state)
      × IsOlder (parse_slot_state erased) slot_state)
    ⊎ ((slot_state_block_b ≡ slot_state_block_a)
        × (parse_slot_state erased ≡ some slot_state)
        × IsOlder (parse_slot_state (build_slot_state slot_state)) slot_state)
choose_from-newest_example = choose_from-newest one_record one_record_choice

-- A write that is cut short, and then one that is completed.
abbrev after_cut : Blocks
after_cut = overwrite slot_state_block_b erased one_record

abbrev after_write : Blocks
after_write = overwrite slot_state_block_b (build_slot_state (update_record slot_state)) after_cut

cut_write-Boots : Boots 1 one_record after_write
cut_write-Boots =
    Boots.cut erased erased_parse one_record_choice
      (Boots.written (choose_from-cut erased one_record erased_parse one_record_choice) Boots.done)

boots-recover_example : (stale : ℕ) × (choose_from after_write ≡ some (boots 1 slot_state, stale))
boots-recover_example =
    boots-recover 1 one_record after_write slot_state slot_state_block_b slot_state-IsSlotState
      (omega arith) one_record_choice cut_write-Boots

limit_3 : limit_of slot_state ≡ 3
unfolding limit_of
limit_3 = refl

ready_1 : other_ready slot_state ≡ 1
unfolding other_ready
ready_1 = refl

boots_fall_back_example :
    ((j : ℕ) → j ≤ 3 → (boots j slot_state).active_slot ≡ 0)
    × ((boots 4 slot_state).active_slot ≡ other_slot slot_state)
    × ((boots 4 slot_state).attempt_count ≡ 0)
    × ((boots 4 slot_state).last_reset_reason ≡ 3)
boots_fall_back_example =
    boots_fall_back 3 slot_state (omega (arith, limit_3)) (omega (arith, limit_3))
      (omega (arith, ready_1))

abbrev rebooted : SlotState
rebooted = record slot_state { last_reset_reason = reason_clean_reboot }

limit_rebooted : limit_of rebooted ≡ 3
unfolding limit_of
limit_rebooted = refl

clean_reboot_sticks_example :
    ((boots 3 rebooted).last_reset_reason ≡ reason_clean_reboot)
    × ((boots 3 rebooted).attempt_count ≡ 3)
clean_reboot_sticks_example =
    clean_reboot_sticks 3 rebooted refl (omega (arith, limit_rebooted))
      (omega (arith, limit_rebooted))

abbrev exhausted : SlotState
exhausted = record slot_state { attempt_count = 3 }

exhausted_falls : (try_fallback exhausted).1 ≡ true
unfolding try_fallback limit_of other_ready
exhausted_falls = refl

fallback_hang_unreported_example : (boots 2 exhausted).last_reset_reason ≡ reason_power_on
fallback_hang_unreported_example = fallback_hang_unreported exhausted exhausted_falls

hang_reported_example : (boots 2 slot_state).last_reset_reason ≡ reason_watchdog_or_hang
hang_reported_example =
    hang_reported slot_state (omega arith) (omega (arith, limit_3)) (omega (arith, limit_3))

abbrev start : World test_sd
start = record { card = []; console = [] }

stage0_main-IsSound_example : IsSound test_sd (stage0_main test_sd stack_ctx start)
stage0_main-IsSound_example = stage0_main-IsSound test_sd stack_ctx start refl

-- The word in `r0`, or 99.
abbrev jump_word : Outcome test_sd → ℕ
jump_word (Outcome.jumped r0 memory w) = r0
jump_word (Outcome.halted code w) = 99
jump_word Outcome.stuck = 99

-- The card's payload is loaded, passes the check, and is started.
run_jumps : jump_word (stage0_main test_sd stack_ctx start) ≡ 0
unfolding stage0_main boot_records boot_slot load_and_jump verify_and_jump load_blocks read_state
    attempt_lines choose try_fallback limit_of other_ready update_record reset_reason target_of
    same_digest hash_chunks handoff parse_slot_state read_u32_le read_fields build_slot_state
    write_fields write_u32_le copy_digests crc32_bytes crc_bytes crc_bits crc_bit sha256_finalize
    sha256_init sha256_update sha256_block compress load_words load_word extend_words extend_word
    rounds round rotr32 fill direct_blocks put_all flush top_up pad_zeros finish
run_jumps = refl

-- A card with the record in its first block, and other bytes than the recorded payload.
abbrev spoiled : SdCard
spoiled = record test_sd {
  read_block = λ n c.
      (if n == slot_state_block_a then some (build_slot_state slot_state) else some erased, c);
}

abbrev before_spoiled : World spoiled
before_spoiled = record { card = []; console = [] }

-- The code of a halt, or 0.
abbrev halt_code : Outcome spoiled → ℕ
halt_code (Outcome.jumped r0 memory w) = 0
halt_code (Outcome.halted code w) = code
halt_code Outcome.stuck = 0

-- The payload is loaded, and refused.
run_halts : halt_code (stage0_main spoiled stack_ctx before_spoiled) ≡ 0xDEAD0006
unfolding stage0_main boot_records boot_slot load_and_jump verify_and_jump load_blocks read_state
    attempt_lines choose try_fallback limit_of other_ready update_record reset_reason target_of
    same_digest hash_chunks handoff parse_slot_state read_u32_le read_fields build_slot_state
    write_fields write_u32_le copy_digests crc32_bytes crc_bytes crc_bits crc_bit sha256_finalize
    sha256_init sha256_update sha256_block compress load_words load_word extend_words extend_word
    rounds round rotr32 fill direct_blocks put_all flush top_up pad_zeros finish stage0_fault
run_halts = refl

-- The test card with the numbers of the blocks that were read or written: all of them are allowed.
abbrev logged : SdCard
logged = record {
  Card = List ℕ;
  init = λ c. (0, c);
  read_block = λ n c. ((test_sd.read_block n c).0, n ∷ c);
  write_block = λ n raw c. (true, n ∷ c);
}

abbrev AreAllowed : List ℕ → Type 0
AreAllowed = All (λ n. IsSlotStateBlock n ⊎ IsSlotBlock n)

abbrev logged-IsKept : IsKept logged AreAllowed
logged-IsKept = record {
  init_keeps = λ c h. h;
  read_keeps = λ n c allowed h. (allowed, h);
  write_keeps = λ n s c place h. (inl place, h);
}

abbrev before_logged : World logged
before_logged = record { card = []; console = [] }

stage0_main-Leaves_example :
    Leaves logged AreAllowed logged-IsKept (stage0_main logged stack_ctx before_logged)
stage0_main-Leaves_example =
    stage0_main-Leaves logged AreAllowed stack_ctx before_logged logged-IsKept tt
