-- ===== src/Boot.antt =====
-- `stage0_main` of boot/stage0/stage0_main.c: choose the newer valid slot-state record, count the
-- boot attempt, fall back to the other slot when the limit is passed, write the record back, load
-- the slot, check its SHA-256, and jump.
pub mod Select
pub mod Fallback
pub mod Reason
pub mod Run
pub mod Hash
pub mod Verify
pub mod Bytes
pub mod Started
pub mod Faults
pub mod Keeps
pub mod Ending
pub mod Watchdog
pub mod PingPong
use dhruvaos.Base.{
  ℕ, zero, suc, ◌+◌, ◌-◌, ◌*◌, ◌/◌, Bool, true, false, not, ◌&&◌, ◌||◌, Option, none, some, List,
  [], ◌∷◌, bit_or, length, take, drop, ltb, leb, ◌==◌, if◌then◌else◌, u32, ◌<<◌,
}
use dhruvaos.Slot.{SlotState, at, parse_slot_state}
use dhruvaos.Sha256.{Ctx, sha256_update}

abbrev pub block_size : ℕ
block_size = 512

abbrev pub slot_state_block_a : ℕ
slot_state_block_a = 9216

abbrev pub slot_state_block_b : ℕ
slot_state_block_b = 9217

abbrev pub slot_a_base_block : ℕ
slot_a_base_block = 10240

abbrev pub slot_b_base_block : ℕ
slot_b_base_block = 22528

abbrev pub slot_size_bytes : ℕ
slot_size_bytes = 12288 * 512

abbrev pub default_bootlimit : ℕ
default_bootlimit = 3

abbrev pub reason_power_on : ℕ
reason_power_on = 0

abbrev pub reason_clean_reboot : ℕ
reason_clean_reboot = 1

abbrev pub reason_watchdog_or_hang : ℕ
reason_watchdog_or_hang = 2

abbrev pub reason_auto_fallback : ℕ
reason_auto_fallback = 3

-- `chosen` and `stale_block`; `none` is `have_chosen == 0`.
unfoldable pub choose : Option SlotState → Option SlotState → Option (SlotState × ℕ)
choose (some a) (some b) =
    if leb b.generation a.generation
    then some (a, slot_state_block_b)
    else some (b, slot_state_block_a)
choose (some a) none = some (a, slot_state_block_b)
choose none (some b) = some (b, slot_state_block_a)
choose none none = none

-- `chosen.bootlimit ? chosen.bootlimit : DEFAULT_BOOTLIMIT`
unfoldable pub limit_of : SlotState → ℕ
limit_of s = if s.bootlimit == 0 then default_bootlimit else s.bootlimit

-- `(chosen.active_slot == 0) ? chosen.slot_b_ready : chosen.slot_a_ready`
unfoldable pub other_ready : SlotState → ℕ
other_ready s = if s.active_slot == 0 then s.slot_b_ready else s.slot_a_ready

abbrev pub count_attempt : SlotState → SlotState
count_attempt s = record s { attempt_count = u32 (s.attempt_count + 1) }

abbrev pub flip : SlotState → SlotState
flip s = record s { active_slot = if s.active_slot == 0 then 1 else 0; attempt_count = 0 }

-- Steps 2 and 3: the record after the count and the fallback, and `fell_back`.
unfoldable pub try_fallback : SlotState → SlotState × Bool
try_fallback chosen =
    let counted = count_attempt chosen in
    if ltb (limit_of counted) counted.attempt_count && not (other_ready counted == 0)
    then (flip counted, true)
    else (counted, false)

-- The reason recorded for this boot.
unfoldable pub reset_reason : Bool → ℕ → ℕ → ℕ
reset_reason fell_back prior_reason prior_attempt_count =
    if fell_back
    then reason_auto_fallback
    else if prior_reason == reason_clean_reboot
    then reason_clean_reboot
    else if ltb 0 prior_attempt_count
    then reason_watchdog_or_hang
    else reason_power_on

-- All that a boot changes in the record that it chose, up to `build_slot_state`.
unfoldable pub update_record : SlotState → SlotState
update_record chosen =
    let (s, fell_back) = try_fallback chosen in
    record s {
      last_reset_reason = reset_reason fell_back chosen.last_reset_reason chosen.attempt_count;
      generation = u32 (s.generation + 1);
    }

-- `base_block`, `len_bytes` and `expect_sha256`.
pub record Target : Type 0 where
  pub base_block : ℕ
  pub len_bytes : ℕ
  pub expect_sha256 : List ℕ

unfoldable pub target_of : SlotState → Target
target_of s =
    if s.active_slot == 0
    then record {
      base_block = slot_a_base_block;
      len_bytes = s.slot_a_len;
      expect_sha256 = s.slot_a_sha256;
    }
    else record {
      base_block = slot_b_base_block;
      len_bytes = s.slot_b_len;
      expect_sha256 = s.slot_b_sha256;
    }

-- The comparison of the digests, from index `i` with `left` bytes to go.
unfoldable pub same_digest : ℕ → ℕ → List ℕ → List ℕ → Bool
same_digest zero i actual expect = true
same_digest (suc left) i actual expect =
    if at actual i == at expect i then same_digest left (i + 1) actual expect else false

-- The hashing loop over the bytes that are left, `chunk` at a time, on fuel.
unfoldable pub hash_chunks : ℕ → ℕ → Ctx → List ℕ → Ctx
hash_chunks chunk zero ctx bytes = ctx
hash_chunks chunk (suc fuel) ctx bytes =
    let this_len = if ltb chunk (length bytes) then chunk else length bytes in
    let rest =
      hash_chunks chunk fuel (sha256_update ctx (take this_len bytes)) (drop this_len bytes) in
    if length bytes == 0 then ctx else rest

-- The word that is passed to the kernel in `r0`.
unfoldable pub handoff : SlotState → ℕ
handoff s = bit_or (s.last_reset_reason << 8) s.active_slot
