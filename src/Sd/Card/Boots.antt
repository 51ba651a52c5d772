-- ===== src/Sd/Card/Boots.antt =====
-- `stage0_main` over the SD driver, and what passes on the bus.
use mathlib.Core.Path.{subst}
use dhruvaos.Base.{
  if◌then◌else◌, ℕ, ◌+◌, ◌-◌, ◌/◌, ◌^◌, ◌≤◌, ◌≡◌, ◌⊎◌, inl, inr, refl, ==_iff, Option, none, some,
  Option-cases, Bool, true, false, Bool-cases, ◌||◌, ltb, ◌==◌, List, [], ◌∷◌, ◌++◌, take, arith,
}
use dhruvaos.Sha256.{Ctx, sha256_init, sha256_finalize}
use dhruvaos.Slot.{SlotState, build_slot_state}
use dhruvaos.Boot.{
  slot_state_block_a, slot_state_block_b, slot_size_bytes, choose, update_record, target_of,
  same_digest, hash_chunks, handoff,
}
use dhruvaos.Boot.Run
use dhruvaos.Boot.Run.{
  World, Outcome, Loaded, say, load_blocks, verify_and_jump, load_and_jump, boot_slot, read_state,
  boot_records, stage0_main, stage0_fault,
}
use dhruvaos.Sd.{Device, Driver, Transfer}
use dhruvaos.Sd.Access.{IsTimed, Moved}
use dhruvaos.Sd.Block.Reads.{Kept, Kept-trans, Moved-Kept, IsRead, sd_read_block-IsRead}
use dhruvaos.Sd.Block.Writes.{IsWritten, sd_write_block-IsWritten}
use dhruvaos.Sd.Init.Trace.{IsDone, IsInitialised, IsBrokenOff}
use dhruvaos.Sd.Init.Protocol.{sd_init-IsInitialised}
use dhruvaos.Sd.Card.{words_of, length-words_of, sd_card}
use dhruvaos.Sd.Card.Loads.{IsLoading, IsLoadedFrom, load_blocks-IsLoadedFrom}

-- A jump from `started`: the card was initialized, the records were read, the chosen one, updated,
-- was sent for its block, and the bytes at the load address then came from the slot's blocks.
pub record IsBooted {H : Type 0} (started : Driver H) (r0 : ℕ) (memory : List ℕ) (ended : Driver H)
    : Type 0 where
  pub ready : Driver H
  pub chosen : Driver H
  pub written : Driver H
  pub slot_state : SlotState
  pub stale_block : ℕ
  pub wrote : Bool
  pub loads : List Transfer
  pub initialised : IsInitialised started ready
  pub read : Kept ready chosen
  pub place : (stale_block ≡ slot_state_block_a) ⊎ (stale_block ≡ slot_state_block_b)
  pub sent : IsWritten stale_block (words_of 128 (build_slot_state slot_state)) chosen wrote written
  pub word : r0 ≡ handoff slot_state
  pub loading : IsLoading written.is_sdhc (target_of slot_state).base_block memory loads
  pub loaded : Moved loads written ended

choose_place :
    (a b : Option SlotState) {chosen : SlotState} {stale : ℕ}
    → choose a b ≡ some (chosen, stale)
    → (stale ≡ slot_state_block_a) ⊎ (stale ≡ slot_state_block_b)
unfolding choose
choose_place (some a) (some b) h = ground arith
choose_place (some a) none h = ground arith
choose_place none (some b) h = ground arith
choose_place none none h = cc

IsRead-Kept :
    {H : Type 0} (n : ℕ) (s : Driver H) (o : Option (List ℕ)) (t : Driver H)
    → IsRead n s o t
    → Kept s t
IsRead-Kept n s none t h = h
IsRead-Kept n s (some ws) t (pre, is, size, h) = Moved-Kept h

done_zero :
    {H : Type 0} (s : Driver H) (r : ℕ) (t : Driver H)
    → IsDone (IsInitialised s) (IsBrokenOff s) r t
    → (r == 0) ≡ true
    → IsInitialised s t
done_zero s r t (inl (e, p)) h = p
done_zero s r t (inr (stage, low, high, e, broken)) h =
    absurd (omega (arith, e, low, high, (==_iff r 0).0 h))

module _ (dev : Device) (timed : IsTimed dev) (fuel : ℕ) (enough : 10 ^ 9 ≤ fuel)
    (garbage : Ctx) where
  abbrev card : Run.SdCard
  card = sd_card dev timed fuel enough

  abbrev pub IsTraced : Driver dev.Hardware → Outcome card → Type 0
  IsTraced s (Run.Outcome.halted code w) = Unit
  IsTraced s (Run.Outcome.jumped r0 memory w) = IsBooted s r0 memory w.card
  IsTraced s Run.Outcome.stuck = Unit

  module _ (s : Driver dev.Hardware) where
    verify-IsTraced :
        (rec : SlotState) (memory : List ℕ) (w : World card)
        → IsBooted s (handoff rec) memory w.card
        → IsTraced s (verify_and_jump card garbage rec memory w)
    unfolding verify_and_jump stage0_fault
    verify-IsTraced rec memory w h =
        let t = target_of rec in
        let payload = take t.len_bytes memory in
        elim (Option-cases
          (sha256_finalize (hash_chunks 262144 t.len_bytes (sha256_init garbage) payload))) [
            | inl e ↦ rw (e, IsTraced) tt
            | inr (actual, e) ↦
                rw (e, IsTraced)
                  (elim (Bool-cases (same_digest 32 0 actual t.expect_sha256)) [
                    | inl e' ↦ rw e' h
                    | inr e' ↦ rw e' tt
                  ])
          ]

    -- A record that was written to `stale`, with the card left at `written`.
    module _ (ready chosen written : Driver dev.Hardware) (rec : SlotState) (stale : ℕ)
        (wrote : Bool) (initialised : IsInitialised s ready) (read : Kept ready chosen)
        (place : (stale ≡ slot_state_block_a) ⊎ (stale ≡ slot_state_block_b))
        (sent : IsWritten stale (words_of 128 (build_slot_state rec)) chosen wrote written) where
      loaded-IsTraced :
          (r : Loaded card)
          → IsLoadedFrom dev timed fuel enough ((target_of rec).base_block + 0) [] written r
          → IsTraced s (elim r [
            | Run.Loaded.failed i w' ↦
                stage0_fault card 0xDEAD0004 (say card (Run.read_failed i) w')
            | Run.Loaded.loaded memory w' ↦ verify_and_jump card garbage rec memory w'
          ])
      unfolding stage0_fault
      loaded-IsTraced (Run.Loaded.failed i w) h = tt
      loaded-IsTraced (Run.Loaded.loaded memory w) (bytes, ts, e, l, moved) =
          let base : (target_of rec).base_block + 0 ≡ (target_of rec).base_block = omega arith in
          verify-IsTraced rec memory w (record {
            ready = ready;
            chosen = chosen;
            written = written;
            slot_state = rec;
            stale_block = stale;
            wrote = wrote;
            loads = ts;
            initialised = initialised;
            read = read;
            place = place;
            sent = sent;
            word = refl;
            loading = rw e (rw base at l);
            loaded = moved;
          })

      load-IsTraced :
          (w : World card) → w.card ≡ written → IsTraced s (load_and_jump card garbage rec w)
      unfolding load_and_jump stage0_fault
      load-IsTraced w same =
          let t = target_of rec in
          let w' = say card (Run.loading t.len_bytes) w in
          let r = load_blocks card t.base_block ((t.len_bytes + 512 - 1) / 512) 0 w' [] in
          elim (Bool-cases (t.len_bytes == 0 || ltb slot_size_bytes t.len_bytes)) [
            | inl e ↦ rw (e, IsTraced) tt
            | inr e ↦
                rw (e, IsTraced)
                  (loaded-IsTraced r (
                    subst (λ d. IsLoadedFrom dev timed fuel enough (t.base_block + 0) [] d r) same
                      (load_blocks-IsLoadedFrom dev timed fuel enough t.base_block
                        ((t.len_bytes + 512 - 1) / 512) 0 w' [])))
          ]

    boot_slot-IsTraced :
        (ready : Driver dev.Hardware) (found : SlotState) (stale : ℕ) (w : World card)
        → IsInitialised s ready
        → Kept ready w.card
        → (stale ≡ slot_state_block_a) ⊎ (stale ≡ slot_state_block_b)
        → IsTraced s (boot_slot card garbage found stale w)
    unfolding boot_slot
    boot_slot-IsTraced ready found stale w initialised read place =
        let rec = update_record found in
        let words = words_of 128 (build_slot_state rec) in
        let run =
          sd_write_block-IsWritten dev timed fuel enough stale words w.card
            (length-words_of 128 (build_slot_state rec)) in
        let w' : World card = record {
          card = run.state;
          console = w.console ++ Run.attempt_lines found;
        } in
        load-IsTraced ready w.card run.state rec stale run.result initialised read place run.post _
          (if_card run.result w' (say card (Run.write_back_failed stale) w') refl refl)
      where
        if_card :
            {c : Driver dev.Hardware} (b : Bool) (u v : World card)
            → u.card ≡ c
            → v.card ≡ c
            → (if b then u else v).card ≡ c
        if_card true u v p q = p
        if_card false u v p q = q

    boot_records-IsTraced :
        (w : World card) → IsInitialised s w.card → IsTraced s (boot_records card garbage w)
    unfolding boot_records read_state stage0_fault
    boot_records-IsTraced w initialised =
        let read_a = sd_read_block-IsRead dev timed fuel enough slot_state_block_a w.card in
        let read_b = sd_read_block-IsRead dev timed fuel enough slot_state_block_b read_a.state in
        let read =
          Kept-trans (IsRead-Kept slot_state_block_a w.card read_a.result read_a.state read_a.post)
            (IsRead-Kept slot_state_block_b read_a.state read_b.result read_b.state read_b.post) in
        elim (Option-cases (
          choose (read_state card slot_state_block_a w.card).0
            (read_state card slot_state_block_b read_a.state).0)) [
              | inl e ↦ rw (e, IsTraced) tt
              | inr ((found, stale), e) ↦
                  rw (e, IsTraced)
                    (boot_slot-IsTraced w.card found stale (record w { card = read_b.state })
                      initialised read (choose_place _ _ e))
            ]

  -- Take hardware on which a load takes more than no time and at most 1000 seconds and the timer
  -- shows the microseconds, and fuel of 10 ^ 9. When `stage0_main` over the SD driver jumps, the
  -- driver has first initialized the card; has then put a record, as 128 words, on the bus for one
  -- of the two slot-state blocks, unless that write failed; has then loaded the slot that this
  -- record says, block after block from the slot's base, each asked for with CMD17 and followed by
  -- its 128 words; and `r0` is the record's word and the memory is the bytes of these words.
  pub stage0_main-IsTraced : (w : World card) → IsTraced w.card (stage0_main card garbage w)
  unfolding stage0_main stage0_fault
  stage0_main-IsTraced w =
      let run = sd_init-IsInitialised dev timed fuel enough w.card in
      elim (Bool-cases (run.result == 0)) [
        | inl e ↦
            rw (e, IsTraced)
              (boot_records-IsTraced w.card
                (record { card = run.state; console = w.console ++ Run.starting ∷ [] })
                (done_zero w.card run.result run.state run.post e))
        | inr e ↦ rw (e, IsTraced) tt
      ]
