-- ===== src/Slot.antt =====
-- The slot-state record of boot/stage0/stage0_main.c: its 512-byte block (`parse_slot_state`,
-- `build_slot_state`) and the little-endian words in it.
pub mod Words
pub mod RoundTrip
pub mod Corrupt
use dhruvaos.Base.{
  ℕ, zero, suc, ◌+◌, bit_or, Bool, Option, none, some, List, get_or, set, replicate, reads, ◌==◌,
  if◌then◌else◌, u8, ◌<<◌, ◌>>◌,
}
use dhruvaos.Crc32.{crc32_bytes}

abbrev pub at : List ℕ → ℕ → ℕ
at buf i = get_or buf i 0

unfoldable pub read_u32_le : List ℕ → ℕ → ℕ
read_u32_le buf off =
    bit_or (bit_or (bit_or (at buf off) (at buf (off + 1) << 8)) (at buf (off + 2) << 16))
      (at buf (off + 3) << 24)

unfoldable pub write_u32_le : List ℕ → ℕ → ℕ → List ℕ
write_u32_le buf off v =
    let b1 = set buf off (u8 v) in
    let b2 = set b1 (off + 1) (u8 (v >> 8)) in
    let b3 = set b2 (off + 2) (u8 (v >> 16)) in set b3 (off + 3) (u8 (v >> 24))

-- `struct slot_state`: bytes, words, and two 32-byte digests.
pub record SlotState : Type 0 where
  pub generation : ℕ
  pub active_slot : ℕ
  pub preferred_slot : ℕ
  pub last_reset_reason : ℕ
  pub attempt_count : ℕ
  pub bootlimit : ℕ
  pub slot_a_ready : ℕ
  pub slot_b_ready : ℕ
  pub slot_a_len : ℕ
  pub slot_b_len : ℕ
  pub slot_a_sha256 : List ℕ
  pub slot_b_sha256 : List ℕ

abbrev pub magic : ℕ
magic = 0x44485342

-- The record's fields, once its magic and its CRC are right.
unfoldable pub read_fields : List ℕ → SlotState
read_fields raw = record {
  generation = read_u32_le raw 4;
  active_slot = at raw 8;
  preferred_slot = at raw 9;
  last_reset_reason = at raw 10;
  attempt_count = read_u32_le raw 12;
  bootlimit = read_u32_le raw 16;
  slot_a_ready = at raw 20;
  slot_b_ready = at raw 21;
  slot_a_len = read_u32_le raw 24;
  slot_b_len = read_u32_le raw 28;
  slot_a_sha256 = reads raw 0 32 32;
  slot_b_sha256 = reads raw 0 64 32;
}

-- `none` is the return of 0.
unfoldable pub parse_slot_state : List ℕ → Option SlotState
parse_slot_state raw =
    if read_u32_le raw 0 == magic
    then (if crc32_bytes raw 96 == read_u32_le raw 96 then some (read_fields raw) else none)
    else none

-- The loop that copies both digests, from index `i` with `left` rounds to go.
unfoldable pub copy_digests : SlotState → ℕ → ℕ → List ℕ → List ℕ
copy_digests s zero i out = out
copy_digests s (suc left) i out =
    copy_digests s left (i + 1)
      (set (set out (32 + i) (at s.slot_a_sha256 i)) (64 + i) (at s.slot_b_sha256 i))

-- The block before its CRC is stored.
unfoldable pub write_fields : SlotState → List ℕ
write_fields s =
    let b0 = write_u32_le (replicate 512 0) 0 magic in
    let b1 = write_u32_le b0 4 s.generation in
    let b2 = set (set (set b1 8 s.active_slot) 9 s.preferred_slot) 10 s.last_reset_reason in
    let b3 = write_u32_le b2 12 s.attempt_count in
    let b4 = write_u32_le b3 16 s.bootlimit in
    let b5 = set (set b4 20 s.slot_a_ready) 21 s.slot_b_ready in
    let b6 = write_u32_le b5 24 s.slot_a_len in
    copy_digests s 32 0 (write_u32_le b6 28 s.slot_b_len)

unfoldable pub build_slot_state : SlotState → List ℕ
build_slot_state s = let out = write_fields s in write_u32_le out 96 (crc32_bytes out 96)
