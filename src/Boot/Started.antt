-- ===== src/Boot/Started.antt =====
-- What the kernel is started with when the card returns bytes: the check of `stage0_main` beside
-- FIPS 180-4, and the word in `r0` by its parts.
use mathlib.Core.Path.{subst}
use dhruvaos.Base.{
  ℕ, ◌*◌, ◌/◌, ◌%◌, ◌<◌, ◌≤◌, ◌≡◌, ◌≢◌, refl, ap, ◌∙◌, sym, some, List, arith, length, take, All,
  All-get_or, All-take, IsByte,
}
use dhruvaos.Base.Bits.{bit_or_fields}
use dhruvaos.Slot.{SlotState, at, parse_slot_state, read_fields}
use dhruvaos.Sha256.{Ctx}
use dhruvaos.Sha256.Fips.{fips_sha256}
use dhruvaos.Sha256.Fips.Digest.{sha256-fips_sha256}
use dhruvaos.Boot.{update_record, try_fallback, target_of, handoff}
use dhruvaos.Boot.Fallback.{update_record-lists}
use dhruvaos.Boot.Run
use dhruvaos.Boot.Run.{
  SdCard, World, Outcome, Loaded, say, load_blocks, verify_and_jump, load_and_jump, boot_slot,
  read_state, boot_records, stage0_main, stage0_fault,
}
use dhruvaos.Boot.Bytes.{GivesBytes, JumpsToBytes, stage0_main-JumpsToBytes}
use dhruvaos.Boot.Verify.{Recorded, Verified, IsSound, stage0_main-IsSound}

-- The first `len` bytes of the memory are a payload of at most 12288 blocks, with this SHA-256.
pub record IsPayload (len : ℕ) (expected memory : List ℕ) : Type 0 where
  pub nonempty : 0 < len
  pub fits : len ≤ 12288 * 512
  pub whole : len ≤ length memory
  pub digest : (j : ℕ) → j < 32 → at (fips_sha256 (take len memory)) j ≡ at expected j

-- `r0` has the slot in its low byte and the reason above it, and the memory starts with that slot's
-- payload.
pub record IsStartedWith (sd : SdCard) (r0 : ℕ) (memory : List ℕ) : Type 0 where
  pub chosen : SlotState
  pub found : Recorded sd chosen
  pub slot : r0 % 256 ≡ (update_record chosen).active_slot
  pub reason : r0 / 256 ≡ (update_record chosen).last_reset_reason
  pub bytes : All IsByte memory
  pub in_a :
      (update_record chosen).active_slot ≡ 0
      → IsPayload chosen.slot_a_len chosen.slot_a_sha256 memory
  pub in_b :
      (update_record chosen).active_slot ≢ 0
      → IsPayload chosen.slot_b_len chosen.slot_b_sha256 memory

parsed-fields : (raw : List ℕ) {s : SlotState} → parse_slot_state raw ≡ some s → read_fields raw ≡ s
unfolding parse_slot_state
parsed-fields raw h = ground arith

read_fields-slot-IsByte : (raw : List ℕ) → All IsByte raw → IsByte ((read_fields raw).active_slot)
unfolding read_fields
read_fields-slot-IsByte raw h = All-get_or IsByte raw 8 0 h (omega arith)

updated-slot-IsByte :
    (s : SlotState) → IsByte s.active_slot → IsByte ((update_record s).active_slot)
unfolding update_record try_fallback
updated-slot-IsByte s h = ground arith

updated-lengths :
    (s : SlotState)
    → ((update_record s).slot_a_len ≡ s.slot_a_len) × ((update_record s).slot_b_len ≡ s.slot_b_len)
unfolding update_record try_fallback
updated-lengths s = ground arith

handoff_lem :
    (s : SlotState)
    → IsByte s.active_slot
    → (handoff s % 256 ≡ s.active_slot) × (handoff s / 256 ≡ s.last_reset_reason)
unfolding handoff
handoff_lem s h = omega (arith, bit_or_fields 8 s.last_reset_reason s.active_slot h, h)

same_payload :
    {len len' : ℕ} {expected expected' memory : List ℕ}
    → len ≡ len'
    → expected ≡ expected'
    → IsPayload len expected memory
    → IsPayload len' expected' memory
same_payload {len} {expected' = expected'} {memory = memory} e e' h =
    subst (λ n. IsPayload n expected' memory) e (subst (λ d. IsPayload len d memory) e' h)

target_a :
    (s : SlotState)
    → s.active_slot ≡ 0
    → ((target_of s).len_bytes ≡ s.slot_a_len) × ((target_of s).expect_sha256 ≡ s.slot_a_sha256)
unfolding target_of
target_a s e = rw e (refl, refl)

target_b :
    (s : SlotState)
    → s.active_slot ≢ 0
    → ((target_of s).len_bytes ≡ s.slot_b_len) × ((target_of s).expect_sha256 ≡ s.slot_b_sha256)
unfolding target_of
target_b s ne = (ground arith, ground arith)

-- What a jump has checked, for the slot that is started.
module _ (sd : SdCard) (gives : GivesBytes sd) {r0 : ℕ} {memory : List ℕ}
    (v : Verified sd r0 memory) (bytes : All IsByte memory) where
  abbrev updated : SlotState
  updated = update_record v.chosen

  checked : IsPayload (target_of updated).len_bytes (target_of updated).expect_sha256 memory
  checked =
      let payload = take (target_of updated).len_bytes memory in
      let same = sha256-fips_sha256 payload (All-take IsByte _ memory bytes) in
      record {
        nonempty = v.nonempty;
        fits = v.fits;
        whole = v.whole;
        digest = λ j lt. ap (λ d. at d j) (sym same) ∙ v.digest j lt;
      }

  slot-IsByte : IsByte updated.active_slot
  slot-IsByte =
      let raw = gives v.found.number v.found.card v.found.block v.found.read in
      updated-slot-IsByte v.chosen (
        subst (λ s. IsByte s.active_slot) (parsed-fields v.found.block v.found.parsed)
          (read_fields-slot-IsByte v.found.block raw))

  verified-IsStartedWith : IsStartedWith sd r0 memory
  verified-IsStartedWith =
      let (low, high) = handoff_lem updated slot-IsByte in
      let (len_a, len_b) = updated-lengths v.chosen in
      let (sum_a, sum_b) = update_record-lists v.chosen in
      record {
        chosen = v.chosen;
        found = v.found;
        slot = ap (λ n. n % 256) v.word ∙ low;
        reason = ap (λ n. n / 256) v.word ∙ high;
        bytes = bytes;
        in_a = λ e.
            let (len, sum) = target_a updated e in same_payload (len ∙ len_a) (sum ∙ sum_a) checked;
        in_b = λ ne.
            let (len, sum) = target_b updated ne in
            same_payload (len ∙ len_b) (sum ∙ sum_b) checked;
      }

-- An outcome is sound if it is not stuck, and a jump only goes to a slot's payload.
abbrev pub IsStarted : (sd : SdCard) → Outcome sd → Type 0
IsStarted sd (Run.Outcome.halted code w) = Unit
IsStarted sd (Run.Outcome.jumped r0 memory w) = IsStartedWith sd r0 memory
IsStarted sd Run.Outcome.stuck = ⊥

both-IsStarted :
    (sd : SdCard) (gives : GivesBytes sd) (o : Outcome sd)
    → IsSound sd o
    → JumpsToBytes sd gives o
    → IsStarted sd o
both-IsStarted sd gives (Run.Outcome.halted code w) v bytes = tt
both-IsStarted sd gives (Run.Outcome.jumped r0 memory w) v bytes =
    verified-IsStartedWith sd gives v bytes
both-IsStarted sd gives Run.Outcome.stuck v bytes = v

-- Take a card whose blocks are bytes when they can be read, as those of the SD driver are, and a
-- hash context with a 64-byte buffer. `stage0_main` halts or jumps; when it jumps, a block that the
-- card returned for one of the two slot-state block numbers holds a record, the low byte of `r0` is
-- the active slot of the updated record and the rest of `r0` its reset reason, the memory is bytes,
-- and it starts with a payload of the length that the record in that block gives for this slot,
-- from 1 byte to 6 MiB, whose SHA-256 as FIPS 180-4 describes it has the 32 bytes that the record
-- gives for this slot.
pub stage0_main-IsStarted :
    (sd : SdCard) (garbage : Ctx) (w : World sd)
    → GivesBytes sd
    → length garbage.buf ≡ 64
    → IsStarted sd (stage0_main sd garbage w)
stage0_main-IsStarted sd garbage w gives size =
    both-IsStarted sd gives _ (stage0_main-IsSound sd garbage w size)
      (stage0_main-JumpsToBytes sd gives garbage w)
