-- ===== src/Boot/Fallback.antt =====
-- Attempts and the fallback: which slot a boot goes to.
use dhruvaos.Base.{
  ℕ, zero, suc, ◌+◌, ◌-◌, ◌≤◌, ◌<◌, ◌^◌, ◌≡◌, ◌≢◌, ◌↔◌, refl, ◌∙◌, true, arith, ◌==◌, if◌then◌else◌,
  IsWord, IsByte,
}
use dhruvaos.Slot.{SlotState}
use dhruvaos.Slot.RoundTrip.{IsSlotState}
use dhruvaos.Boot.{limit_of, other_ready, try_fallback, reset_reason, update_record}

-- The other slot is taken exactly when this attempt passes the limit and the other slot is ready.
pub try_fallback_iff :
    (s : SlotState)
    → s.attempt_count < 2 ^ 32 - 1
    → ((try_fallback s).1 ≡ true) ↔ ((limit_of s < s.attempt_count + 1) × (other_ready s ≢ 0))
unfolding try_fallback limit_of other_ready
try_fallback_iff s h = ground arith

-- The record after `n` boots none of which got as far as marking its slot good.
unfoldable pub boots : ℕ → SlotState → SlotState
boots zero s = s
boots (suc n) s = boots n (update_record s)

abbrev pub other_slot : SlotState → ℕ
other_slot s = if s.active_slot == 0 then 1 else 0

-- What a boot within the limit keeps, and what it counts.
record Counted (s t : SlotState) : Type 0 where
  slot : t.active_slot ≡ s.active_slot
  attempts : t.attempt_count ≡ s.attempt_count + 1
  limit : limit_of t ≡ limit_of s
  ready : other_ready t ≡ other_ready s

update_record-Counted :
    (s : SlotState)
    → s.attempt_count < limit_of s
    → limit_of s < 2 ^ 32
    → Counted s (update_record s)
unfolding update_record try_fallback limit_of other_ready
update_record-Counted s h fits = ground arith

update_record-flip :
    (s : SlotState)
    → s.attempt_count ≡ limit_of s
    → limit_of s < 2 ^ 32 - 1
    → other_ready s ≢ 0
    → ((update_record s).active_slot ≡ other_slot s)
      × ((update_record s).attempt_count ≡ 0)
      × ((update_record s).last_reset_reason ≡ 3)
unfolding update_record try_fallback limit_of other_ready reset_reason
update_record-flip s h fits ready = ground arith

boots_within :
    (n : ℕ) (s : SlotState)
    → s.attempt_count + n ≤ limit_of s
    → limit_of s < 2 ^ 32
    → ((boots n s).active_slot ≡ s.active_slot)
      × ((boots n s).attempt_count ≡ s.attempt_count + n)
      × (limit_of (boots n s) ≡ limit_of s)
      × (other_ready (boots n s) ≡ other_ready s)
unfolding boots
boots_within zero s h fits = (refl, omega arith, refl, refl)
boots_within (suc n) s h fits =
    let c = update_record-Counted s (omega arith) fits in
    let (slot, attempts, limit, ready) =
      boots_within n (update_record s) (omega (arith, c.attempts, c.limit))
        (omega (arith, c.limit)) in
    (slot ∙ c.slot, omega (arith, attempts, c.attempts), limit ∙ c.limit, ready ∙ c.ready)

boots-suc : (n : ℕ) (s : SlotState) → boots (suc n) s ≡ update_record (boots n s)
unfolding boots
boots-suc zero s = refl
boots-suc (suc n) s = boots-suc n (update_record s)

-- Take a record whose other slot is ready, whose limit is below 2 ^ 32 - 1, and whose attempts
-- reach the limit after `n` more. While no boot is marked good, `n` updates keep the slot, and the
-- next one goes to the other slot, with the count at 0 and the reason "automatic fallback".
pub boots_fall_back :
    (n : ℕ) (s : SlotState)
    → s.attempt_count + n ≡ limit_of s
    → limit_of s < 2 ^ 32 - 1
    → other_ready s ≢ 0
    → ((j : ℕ) → j ≤ n → (boots j s).active_slot ≡ s.active_slot)
      × ((boots (suc n) s).active_slot ≡ other_slot s)
      × ((boots (suc n) s).attempt_count ≡ 0)
      × ((boots (suc n) s).last_reset_reason ≡ 3)
boots_fall_back n s h fits ready =
    let (slot, attempts, limit, same) = boots_within n s (omega arith) (omega arith) in
    let (slot', attempts', reason') =
      update_record-flip (boots n s) (omega (arith, attempts, limit)) (omega (arith, limit))
        (λ e. ready (omega (arith, same, e))) in
    (
      λ j le. (boots_within j s (omega arith) (omega arith)).0,
      rw boots-suc (ground (arith, slot', slot)),
      rw boots-suc attempts',
      rw boots-suc reason',
    )

update_record_alone :
    (s : SlotState)
    → other_ready s ≡ 0
    → ((update_record s).active_slot ≡ s.active_slot) × (other_ready (update_record s) ≡ 0)
unfolding update_record try_fallback other_ready
update_record_alone s h = ground arith

-- A slot whose sibling is not ready is booted at every update, whatever the limit and the attempts.
pub boots_alone :
    (n : ℕ) (s : SlotState) → other_ready s ≡ 0 → (boots n s).active_slot ≡ s.active_slot
unfolding boots
boots_alone zero s h = refl
boots_alone (suc n) s h =
    let (slot, ready) = update_record_alone s h in boots_alone n (update_record s) ready ∙ slot

pub update_record-lists :
    (s : SlotState)
    → ((update_record s).slot_a_sha256 ≡ s.slot_a_sha256)
      × ((update_record s).slot_b_sha256 ≡ s.slot_b_sha256)
unfolding update_record try_fallback
update_record-lists s = (ground arith, ground arith)

module _ {s : SlotState} (v : IsSlotState s) where
  generation-IsWord : IsWord ((update_record s).generation)
  unfolding update_record try_fallback
  generation-IsWord = ground arith

  slot-IsByte : IsByte ((update_record s).active_slot)
  unfolding update_record try_fallback
  slot-IsByte = ground (arith, v.active_slot)

  preferred-IsByte : IsByte ((update_record s).preferred_slot)
  unfolding update_record try_fallback
  preferred-IsByte = ground (arith, v.preferred_slot)

  reason-IsByte : IsByte ((update_record s).last_reset_reason)
  unfolding update_record try_fallback reset_reason
  reason-IsByte = ground arith

  attempts-IsWord : IsWord ((update_record s).attempt_count)
  unfolding update_record try_fallback
  attempts-IsWord = ground arith

  limit-IsWord : IsWord ((update_record s).bootlimit)
  unfolding update_record try_fallback
  limit-IsWord = ground (arith, v.bootlimit)

  slot_a_ready-IsByte : IsByte ((update_record s).slot_a_ready)
  unfolding update_record try_fallback
  slot_a_ready-IsByte = ground (arith, v.slot_a_ready)

  slot_b_ready-IsByte : IsByte ((update_record s).slot_b_ready)
  unfolding update_record try_fallback
  slot_b_ready-IsByte = ground (arith, v.slot_b_ready)

  slot_a_len-IsWord : IsWord ((update_record s).slot_a_len)
  unfolding update_record try_fallback
  slot_a_len-IsWord = ground (arith, v.slot_a_len)

  slot_b_len-IsWord : IsWord ((update_record s).slot_b_len)
  unfolding update_record try_fallback
  slot_b_len-IsWord = ground (arith, v.slot_b_len)

  -- The update of a record within the ranges of its C types is again within them.
  pub update_record-IsSlotState : IsSlotState (update_record s)
  update_record-IsSlotState =
      let (a, b) = update_record-lists s in
      record {
        generation = generation-IsWord;
        active_slot = slot-IsByte;
        preferred_slot = preferred-IsByte;
        last_reset_reason = reason-IsByte;
        attempt_count = attempts-IsWord;
        bootlimit = limit-IsWord;
        slot_a_ready = slot_a_ready-IsByte;
        slot_b_ready = slot_b_ready-IsByte;
        slot_a_len = slot_a_len-IsWord;
        slot_b_len = slot_b_len-IsWord;
        slot_a_size = rw a v.slot_a_size;
        slot_b_size = rw b v.slot_b_size;
        slot_a_sha256 = rw a v.slot_a_sha256;
        slot_b_sha256 = rw b v.slot_b_sha256;
      }
