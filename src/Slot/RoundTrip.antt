-- ===== src/Slot/RoundTrip.antt =====
-- The block that `build_slot_state` writes is the record that `parse_slot_state` reads.
use dhruvaos.Base.{
  ℕ, zero, suc, ◌+◌, ◌≡◌, refl, ap, sym, ◌∙◌, some, List, take, length, reads, arith, reads_all,
  All, All-set, All-get_or, All-replicate, IsByte, IsWord, u8, ◌>>◌,
}
use mathlib.Core.Path.{subst}
use dhruvaos.Crc32.{crc32_bytes}
use dhruvaos.Crc32.Detect.{crc32_bytes-take, crc32_bytes-IsWord}
use dhruvaos.Slot.{
  SlotState, write_fields, build_slot_state, write_u32_le, read_u32_le, copy_digests, magic,
  read_fields, parse_slot_state,
}
use dhruvaos.Slot.Words.{word_bytes}

-- The ranges of the C types.
pub record IsSlotState (s : SlotState) : Type 0 where
  pub generation : IsWord s.generation
  pub active_slot : IsByte s.active_slot
  pub preferred_slot : IsByte s.preferred_slot
  pub last_reset_reason : IsByte s.last_reset_reason
  pub attempt_count : IsWord s.attempt_count
  pub bootlimit : IsWord s.bootlimit
  pub slot_a_ready : IsByte s.slot_a_ready
  pub slot_b_ready : IsByte s.slot_b_ready
  pub slot_a_len : IsWord s.slot_a_len
  pub slot_b_len : IsWord s.slot_b_len
  pub slot_a_size : length s.slot_a_sha256 ≡ 32
  pub slot_b_size : length s.slot_b_sha256 ≡ 32
  pub slot_a_sha256 : All IsByte s.slot_a_sha256
  pub slot_b_sha256 : All IsByte s.slot_b_sha256

pub write_u32_le-IsByte :
    (buf : List ℕ) (off v : ℕ) → All IsByte buf → All IsByte (write_u32_le buf off v)
unfolding write_u32_le
write_u32_le-IsByte buf off v h =
    All-set IsByte _ (off + 3) (u8 (v >> 24))
      (All-set IsByte _ (off + 2) (u8 (v >> 16))
        (All-set IsByte _ (off + 1) (u8 (v >> 8)) (All-set IsByte buf off (u8 v) h (omega arith))
          (omega arith))
        (omega arith))
      (omega arith)

module _ {s : SlotState} (v : IsSlotState s) where
  copy_digests-IsByte :
      (left i : ℕ) (out : List ℕ) → All IsByte out → All IsByte (copy_digests s left i out)
  unfolding copy_digests
  copy_digests-IsByte zero i out h = h
  copy_digests-IsByte (suc left) i out h = copy_digests-IsByte left (i + 1) _ (
      All-set IsByte _ (64 + i) _
        (All-set IsByte out (32 + i) _ h
          (All-get_or IsByte s.slot_a_sha256 i 0 v.slot_a_sha256 (omega arith)))
        (All-get_or IsByte s.slot_b_sha256 i 0 v.slot_b_sha256 (omega arith)))

  pub write_fields-IsByte : All IsByte (write_fields s)
  unfolding write_fields
  write_fields-IsByte = copy_digests-IsByte 32 0 _ (
      write_u32_le-IsByte _ 28 s.slot_b_len (
        write_u32_le-IsByte _ 24 s.slot_a_len (
          All-set IsByte _ 21 s.slot_b_ready
            (All-set IsByte _ 20 s.slot_a_ready
              (write_u32_le-IsByte _ 16 s.bootlimit (
                write_u32_le-IsByte _ 12 s.attempt_count (
                  All-set IsByte _ 10 s.last_reset_reason
                    (All-set IsByte _ 9 s.preferred_slot
                      (All-set IsByte _ 8 s.active_slot
                        (write_u32_le-IsByte _ 4 s.generation (
                          write_u32_le-IsByte _ 0 magic (All-replicate IsByte 512 0 (omega arith))))
                        v.active_slot)
                      v.preferred_slot)
                    v.last_reset_reason)))
              v.slot_a_ready)
            v.slot_b_ready)))

  read_fields-build : read_fields (build_slot_state s) ≡ s
  unfolding read_fields read_u32_le build_slot_state write_fields write_u32_le copy_digests
  read_fields-build = λ i. record {
    generation = word_bytes s.generation v.generation i;
    active_slot = s.active_slot;
    preferred_slot = s.preferred_slot;
    last_reset_reason = s.last_reset_reason;
    attempt_count = word_bytes s.attempt_count v.attempt_count i;
    bootlimit = word_bytes s.bootlimit v.bootlimit i;
    slot_a_ready = s.slot_a_ready;
    slot_b_ready = s.slot_b_ready;
    slot_a_len = word_bytes s.slot_a_len v.slot_a_len i;
    slot_b_len = word_bytes s.slot_b_len v.slot_b_len i;
    slot_a_sha256 = digest s.slot_a_sha256 v.slot_a_size i;
    slot_b_sha256 = digest s.slot_b_sha256 v.slot_b_size i;
  }
    where
      digest : (xs : List ℕ) → length xs ≡ 32 → reads xs 0 0 32 ≡ xs
      digest xs e = subst (λ n. reads xs 0 0 n ≡ xs) e (reads_all xs 0)

  stored_crc : read_u32_le (build_slot_state s) 96 ≡ crc32_bytes (write_fields s) 96
  unfolding read_u32_le build_slot_state write_u32_le write_fields copy_digests
  stored_crc =
      word_bytes (crc32_bytes (write_fields s) 96)
        (crc32_bytes-IsWord (write_fields s) 96 write_fields-IsByte)

same_front : (s : SlotState) → take 96 (build_slot_state s) ≡ take 96 (write_fields s)
unfolding build_slot_state write_fields write_u32_le copy_digests
same_front s = refl

actual_crc : (s : SlotState) → crc32_bytes (build_slot_state s) 96 ≡ crc32_bytes (write_fields s) 96
actual_crc s =
    sym (crc32_bytes-take (build_slot_state s) 96)
    ∙ (ap (λ xs. crc32_bytes xs 96) (same_front s) ∙ crc32_bytes-take (write_fields s) 96)

stored_magic : (s : SlotState) → read_u32_le (build_slot_state s) 0 ≡ magic
unfolding read_u32_le build_slot_state write_u32_le write_fields copy_digests
stored_magic s = refl

-- Every record within the ranges of its C types is what `parse_slot_state` reads from the block
-- that `build_slot_state` makes of it.
pub parse-build : {s : SlotState} → IsSlotState s → parse_slot_state (build_slot_state s) ≡ some s
unfolding parse_slot_state
parse-build {s} v = ground (arith, stored_magic s, actual_crc s, stored_crc v, read_fields-build v)

-- A block is 512 bytes.
pub length-build : (s : SlotState) → length (build_slot_state s) ≡ 512
unfolding build_slot_state write_fields write_u32_le copy_digests
length-build s = refl
