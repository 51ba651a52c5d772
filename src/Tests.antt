-- ===== src/Tests.antt =====
-- Test data, and the tests of each part in the child modules.
mod Hashing
mod Slots
mod Booting
mod AllocatingRpi4
mod Printing
mod Allocating
mod Card
mod Polling
use dhruvaos.Base.{
  ℕ, List, [], ◌∷◌, ◌+◌, ◌++◌, refl, ◌≡◌, Bool-cases, inl, inr, ◌==◌, if◌then◌else◌, Option, none,
  some, true, false, Bool, replicate, arith, ltb, All, IsByte,
}
use mathlib.Core.Bool.{false≢true}
use dhruvaos.Sha256.{Ctx}
use dhruvaos.Slot.{SlotState, build_slot_state}
use dhruvaos.Slot.RoundTrip.{IsSlotState}
use dhruvaos.Boot.Run.{SdCard}

-- A context as it may lie on the stack.
abbrev pub stack_ctx : Ctx
stack_ctx = record { h = []; buf = replicate 64 7; buf_len = 9; total_len = 5 }

abbrev pub payload : List ℕ
payload = 1 ∷ 2 ∷ 3 ∷ 4 ∷ []

abbrev pub payload_sha256 : List ℕ
payload_sha256 =
    159 ∷ 100 ∷ 167 ∷ 71 ∷ 225 ∷ 185 ∷ 127 ∷ 19 ∷ 31 ∷ 171 ∷ 182 ∷ 180 ∷ 71 ∷ 41 ∷ 108 ∷ 155 ∷ 111
    ∷ 2 ∷ 1 ∷ 231 ∷ 159 ∷ 179 ∷ 197 ∷ 53 ∷ 110 ∷ 108 ∷ 119 ∷ 232 ∷ 155 ∷ 106 ∷ 128 ∷ 106 ∷ []

abbrev pub slot_state : SlotState
slot_state = record {
  generation = 7;
  active_slot = 0;
  preferred_slot = 0;
  last_reset_reason = 0;
  attempt_count = 0;
  bootlimit = 3;
  slot_a_ready = 1;
  slot_b_ready = 1;
  slot_a_len = 4;
  slot_b_len = 4;
  slot_a_sha256 = payload_sha256;
  slot_b_sha256 = replicate 32 9;
}

abbrev pub all_bytes : List ℕ → Bool
all_bytes [] = true
all_bytes (x ∷ xs) = if ltb x 256 then all_bytes xs else false

pub all_bytes-All : (xs : List ℕ) → all_bytes xs ≡ true → All IsByte xs
all_bytes-All [] h = tt
all_bytes-All (x ∷ xs) h = elim (Bool-cases (ltb x 256)) [
  | inl e ↦ (ground (arith, e), all_bytes-All xs (rw e at h))
  | inr e ↦ absurd (false≢true (rw e at h))
]

pub slot_state-IsSlotState : IsSlotState slot_state
slot_state-IsSlotState = record {
  generation = omega arith;
  active_slot = omega arith;
  preferred_slot = omega arith;
  last_reset_reason = omega arith;
  attempt_count = omega arith;
  bootlimit = omega arith;
  slot_a_ready = omega arith;
  slot_b_ready = omega arith;
  slot_a_len = omega arith;
  slot_b_len = omega arith;
  slot_a_size = refl;
  slot_b_size = refl;
  slot_a_sha256 = all_bytes-All payload_sha256 refl;
  slot_b_sha256 = all_bytes-All (replicate 32 9) refl;
}

-- A card with one record, in its first block, and the payload in slot A.
abbrev pub test_sd : SdCard
test_sd = record {
  Card = List ℕ;
  init = λ c. (0, c);
  read_block = λ n c. (
    if n == 9216
        then some (build_slot_state slot_state)
        else if n == 9217
        then none
        else some (payload ++ replicate 508 0),
    c,
  );
  write_block = λ n block c. (true, n ∷ c);
}
