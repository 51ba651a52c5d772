-- ===== src/Boot/Verify.antt =====
-- What stands when `stage0_main` jumps.
use native.Mathlib.Decide.{ℕ_discrete}
use mathlib.Core.Bool.{false≢true}
use mathlib.Core.Path.{subst}
use dhruvaos.Base.{
  ==_iff, length-reads, length-take, ℕ, zero, suc, ◌+◌, ◌-◌, ◌*◌, ◌/◌, ◌<◌, ◌≤◌, ◌≡◌, refl, ap, ◌∙◌,
  inl, inr, ◌⊎◌, Option, none, some, List, [], ◌++◌, arith, length, take, reads, length-append, ltb,
  ◌==◌, ◌||◌, Bool-cases, Option-cases, true,
}
use dhruvaos.Slot.{SlotState, at, parse_slot_state}
use dhruvaos.Sha256.{Ctx, sha256_init, sha256_finalize}
use dhruvaos.Sha256.Spec.{sha256}
use dhruvaos.Sha256.Digest.{digest-sha256}
use dhruvaos.Boot.{
  slot_state_block_a, slot_state_block_b, slot_size_bytes, choose, update_record, target_of, Target,
  same_digest, hash_chunks, handoff,
}
use dhruvaos.Boot.Hash.{chunks_of, hash_chunks-update_all, flatten-chunks_of}
use dhruvaos.Boot.Run
use dhruvaos.Boot.Run.{
  SdCard, World, Outcome, Loaded, say, load_blocks, verify_and_jump, load_and_jump, boot_slot,
  read_state, boot_records, stage0_main, stage0_fault,
}

same_digest_lem :
    (left i : ℕ) (a b : List ℕ)
    → same_digest left i a b ≡ true
    → (j : ℕ) → i ≤ j
    → j < i + left
    → at a j ≡ at b j
unfolding same_digest
same_digest_lem zero i a b h j p q = absurd (omega arith)
same_digest_lem (suc left) i a b h j p q = elim (Bool-cases (at a i == at b i)) [
  | inl e ↦ elim (ℕ_discrete i j) [
    | yes here ↦ rw (← here) ((==_iff (at a i) (at b i)).0 e)
    | no later ↦ same_digest_lem left (i + 1) a b (rw e at h) j (omega arith) (omega arith)
  ]
  | inr e ↦ absurd (false≢true (rw e at h))
]

-- The hash that is compared is the SHA-256 of the payload.
pub hashed :
    (garbage : Ctx) (payload : List ℕ) (fuel : ℕ)
    → length garbage.buf ≡ 64
    → length payload ≤ fuel
    → sha256_finalize (hash_chunks 262144 fuel (sha256_init garbage) payload)
      ≡ some (sha256 payload)
hashed garbage payload fuel size h =
    rw (hash_chunks-update_all 262144 fuel (sha256_init garbage) payload) (
      digest-sha256 garbage (chunks_of 262144 fuel payload) size
      ∙ ap (λ t. some (sha256 t)) (flatten-chunks_of 262144 fuel payload (omega arith) h))

-- The record stood in one of the two slot-state blocks as the card returned it.
pub record Recorded (sd : SdCard) (chosen : SlotState) : Type 0 where
  pub number : ℕ
  pub place : (number ≡ slot_state_block_a) ⊎ (number ≡ slot_state_block_b)
  pub card : sd.Card
  pub block : List ℕ
  pub read : (sd.read_block number card).0 ≡ some block
  pub parsed : parse_slot_state block ≡ some chosen

-- What the kernel is started with: the word in `r0`, and the bytes at the load address.
pub record Verified (sd : SdCard) (r0 : ℕ) (memory : List ℕ) : Type 0 where
  pub chosen : SlotState
  pub found : Recorded sd chosen
  pub word : r0 ≡ handoff (update_record chosen)
  pub nonempty : 0 < (target_of (update_record chosen)).len_bytes
  pub fits : (target_of (update_record chosen)).len_bytes ≤ slot_size_bytes
  pub whole : (target_of (update_record chosen)).len_bytes ≤ length memory
  pub digest :
      (j : ℕ)
      → j < 32
      → at (sha256 (take (target_of (update_record chosen)).len_bytes memory)) j
        ≡ at (target_of (update_record chosen)).expect_sha256 j

module _ (sd : SdCard) where
  -- An outcome is sound if it is not stuck, and a jump only goes to verified bytes.
  abbrev pub IsSound : Outcome sd → Type 0
  IsSound (Run.Outcome.halted code w) = Unit
  IsSound (Run.Outcome.jumped r0 memory w) = Verified sd r0 memory
  IsSound Run.Outcome.stuck = ⊥

  -- A load that succeeds has left as many bytes as were asked for.
  abbrev HasSize : ℕ → Loaded sd → Type 0
  HasSize n (Run.Loaded.loaded memory w) = length memory ≡ n
  HasSize n (Run.Loaded.failed i w) = Unit

  load_blocks-HasSize :
      (base left i : ℕ) (w : World sd) (memory : List ℕ)
      → HasSize (length memory + left * 512) (load_blocks sd base left i w memory)
  unfolding load_blocks
  load_blocks-HasSize base zero i w memory = omega arith
  load_blocks-HasSize base (suc left) i w memory =
      elim (Option-cases (sd.read_block (base + i) w.card).0) [
        | inl e ↦ rw (e, HasSize) tt
        | inr (block, e) ↦
            let count : length (memory ++ reads block 0 0 512) + left * 512
                ≡ length memory + suc left * 512 =
              omega
                (arith, length-append memory (reads block 0 0 512), length-reads block 0 0 512) in
            rw (e, HasSize)
              (subst
                (λ n. HasSize n (
                  load_blocks sd base left (i + 1)
                    (record w { card = (sd.read_block (base + i) w.card).1 })
                    (memory ++ reads block 0 0 512)))
                count (load_blocks-HasSize base left (i + 1) _ (memory ++ reads block 0 0 512)))
      ]

  module _ (garbage : Ctx) (size : length garbage.buf ≡ 64) (chosen : SlotState)
      (found : Recorded sd chosen) where
    abbrev target : Target
    target = target_of (update_record chosen)

    verify-IsSound :
        (memory : List ℕ) (w : World sd)
        → 0 < target.len_bytes
        → target.len_bytes ≤ slot_size_bytes
        → target.len_bytes ≤ length memory
        → IsSound (verify_and_jump sd garbage (update_record chosen) memory w)
    unfolding verify_and_jump stage0_fault
    verify-IsSound memory w nonempty fits whole =
        let payload = take target.len_bytes memory in
        rw
          (
            hashed garbage payload target.len_bytes size
                (omega (arith, length-take target.len_bytes memory)),
            IsSound,
          )
          (elim (Bool-cases (same_digest 32 0 (sha256 payload) target.expect_sha256)) [
            | inl e ↦ rw e (record {
              chosen = chosen;
              found = found;
              word = refl;
              nonempty = nonempty;
              fits = fits;
              whole = whole;
              digest = λ j lt.
                  same_digest_lem 32 0 (sha256 payload) target.expect_sha256 e j (omega arith)
                    (omega arith);
            })
            | inr e ↦ rw e tt
          ])

    after_load-IsSound :
        (r : Loaded sd) {n : ℕ}
        → HasSize n r
        → 0 < target.len_bytes
        → target.len_bytes ≤ slot_size_bytes
        → target.len_bytes ≤ n
        → IsSound (elim r [
          | Run.Loaded.failed i w' ↦ stage0_fault sd 0xDEAD0004 (say sd (Run.read_failed i) w')
          | Run.Loaded.loaded memory w' ↦
              verify_and_jump sd garbage (update_record chosen) memory w'
        ])
    unfolding stage0_fault
    after_load-IsSound (Run.Loaded.loaded memory w) e a b c =
        verify-IsSound memory w a b (omega arith)
    after_load-IsSound (Run.Loaded.failed i w) e a b c = tt

    load-IsSound : (w : World sd) → IsSound (load_and_jump sd garbage (update_record chosen) w)
    unfolding load_and_jump stage0_fault
    load-IsSound w =
        elim (Bool-cases (target.len_bytes == 0 || ltb slot_size_bytes target.len_bytes)) [
          | inl e ↦ rw e tt
          | inr e ↦ rw e (
              after_load-IsSound _
                (load_blocks-HasSize target.base_block ((target.len_bytes + 512 - 1) / 512) 0 _ [])
                (ground arith) (ground arith) (omega arith))
        ]

    boot_slot-IsSound : (stale : ℕ) (w : World sd) → IsSound (boot_slot sd garbage chosen stale w)
    unfolding boot_slot
    boot_slot-IsSound stale w = load-IsSound _

pub choose_held :
    (a b : Option SlotState) {chosen : SlotState} {stale : ℕ}
    → choose a b ≡ some (chosen, stale)
    → (a ≡ some chosen) ⊎ (b ≡ some chosen)
unfolding choose
choose_held (some a) (some b) h = ground arith
choose_held (some a) none h = ground arith
choose_held none (some b) h = ground arith
choose_held none none h = cc

module _ (sd : SdCard) where
  pub read_state-parsed :
      (n : ℕ) (c : sd.Card) {s : SlotState}
      → (n ≡ slot_state_block_a) ⊎ (n ≡ slot_state_block_b)
      → (read_state sd n c).0 ≡ some s
      → Recorded sd s
  unfolding read_state
  read_state-parsed n c place h = elim (Option-cases (sd.read_block n c).0) [
    | inl e ↦ absurd (cc (rw e at h))
    | inr (block, e) ↦ record {
      number = n;
      place = place;
      card = c;
      block = block;
      read = e;
      parsed = rw e at h;
    }
  ]

  boot_records-IsSound :
      (garbage : Ctx) (w : World sd)
      → length garbage.buf ≡ 64
      → IsSound sd (boot_records sd garbage w)
  unfolding boot_records stage0_fault
  boot_records-IsSound garbage w size = elim (Option-cases (choose a b)) [
    | inl e ↦ rw (e, IsSound) tt
    | inr ((chosen, stale), e) ↦
        let found = from chosen (choose_held a b e) in
        rw (e, IsSound) (boot_slot-IsSound sd garbage size chosen found stale _)
  ]
    where
      a : Option SlotState
      a = (read_state sd slot_state_block_a w.card).0

      b : Option SlotState
      b = (read_state sd slot_state_block_b (read_state sd slot_state_block_a w.card).1).0

      from : (s : SlotState) → (a ≡ some s) ⊎ (b ≡ some s) → Recorded sd s
      from s (inl e) = read_state-parsed slot_state_block_a w.card (inl refl) e
      from s (inr e) =
          read_state-parsed slot_state_block_b (read_state sd slot_state_block_a w.card).1
            (inr refl) e

  -- Whatever the card holds and however its reads and writes fail, and for any hash context with a
  -- 64-byte buffer, `stage0_main` halts with a fault or jumps, and it jumps only when a block that
  -- the card returned for one of the two slot-state block numbers parses to a record, the updated
  -- record's slot has a length from 1 byte to 6 MiB, the memory holds that many bytes, and the 32
  -- bytes of their SHA-256 are the recorded ones; `r0` is the word of the updated record.
  pub stage0_main-IsSound :
      (garbage : Ctx) (w : World sd)
      → length garbage.buf ≡ 64
      → IsSound sd (stage0_main sd garbage w)
  unfolding stage0_main stage0_fault
  stage0_main-IsSound garbage w size = elim (Bool-cases ((sd.init w.card).0 == 0)) [
    | inl e ↦ rw (e, IsSound) (boot_records-IsSound garbage _ size)
    | inr e ↦ rw (e, IsSound) tt
  ]
