-- ===== src/Boot/PingPong.antt =====
-- The two blocks over many boots, with the power cut during some of the writes.
use dhruvaos.Base.{
  ℕ, suc, ◌+◌, ◌-◌, ◌<◌, ◌^◌, ◌≡◌, ◌∙◌, ap, sym, inl, inr, Option, none, some, List, arith,
}
use mathlib.Core.Path.{subst}
use dhruvaos.Slot.{SlotState, parse_slot_state, build_slot_state}
use dhruvaos.Slot.RoundTrip.{IsSlotState, parse-build}
use dhruvaos.Boot.{slot_state_block_a, slot_state_block_b, choose, try_fallback, update_record}
use dhruvaos.Boot.Fallback.{update_record-IsSlotState, boots}
use dhruvaos.Boot.Select.{
  Blocks, choose_from, overwrite, choose_from-newest, choose_from-cut, chosen,
}

-- The block of the record that was not overwritten.
abbrev pub other_block : ℕ → ℕ
other_block block = slot_state_block_a + slot_state_block_b - block

choose_newer_a :
    (t c : SlotState) (b : Option SlotState)
    → c.generation < t.generation
    → b ≡ some c
    → choose (some t) b ≡ some (t, slot_state_block_b)
unfolding choose
choose_newer_a t c b lt e = rw e (ground arith)

choose_newer_b :
    (t c : SlotState) (a : Option SlotState)
    → c.generation < t.generation
    → a ≡ some c
    → choose a (some t) ≡ some (t, slot_state_block_a)
unfolding choose
choose_newer_b t c a lt e = rw e (ground arith)

-- When a record within the ranges of its C types, with a higher generation than the chosen one, is
-- written over the stale block, it is chosen next, and the block of the record that it supersedes
-- is the next to be overwritten.
pub choose_from-written :
    {c t : SlotState} {stale : ℕ} (bs : Blocks)
    → IsSlotState t
    → c.generation < t.generation
    → choose_from bs ≡ some (c, stale)
    → choose_from (overwrite stale (build_slot_state t) bs) ≡ some (t, other_block stale)
unfolding choose_from overwrite
choose_from-written {c} {t} bs v lt h = elim (choose_from-newest bs h) [
  | inl (e, held, older) ↦ rw (e, parse-build v) (choose_newer_b t c _ lt held)
  | inr (e, held, older) ↦ rw (e, parse-build v) (choose_newer_a t c _ lt held)
]

update_record-generation :
    (s : SlotState) → s.generation + 1 < 2 ^ 32 → (update_record s).generation ≡ s.generation + 1
unfolding update_record try_fallback
update_record-generation s h = ground arith

-- Boots from some contents of the two blocks to others: `n` writes of the new record were completed,
-- and of the others, cut short, no block was left that holds a record.
pub data Boots : ℕ → Blocks → Blocks → Type 0 where
  done : {bs : Blocks} → Boots 0 bs bs
  cut :
      {n : ℕ} {bs bs' : Blocks} {c : SlotState} {stale : ℕ} (raw : List ℕ)
      → parse_slot_state raw ≡ none
      → choose_from bs ≡ some (c, stale)
      → Boots n (overwrite stale raw bs) bs'
      → Boots n bs bs'
  written :
      {n : ℕ} {bs bs' : Blocks} {c : SlotState} {stale : ℕ}
      → choose_from bs ≡ some (c, stale)
      → Boots n (overwrite stale (build_slot_state (update_record c)) bs) bs'
      → Boots (suc n) bs bs'

-- Start from two blocks whose chosen record is within the ranges of its C types, with a generation
-- that does not reach 2 ^ 32 in `n` steps. After any sequence of boots of which `n` completed the
-- write of the record, and of which every other left the overwritten block without a valid record,
-- the next boot chooses the record that `n` updates make of the first.
pub boots-recover :
    (n : ℕ) (bs bs' : Blocks) (c : SlotState) (stale : ℕ)
    → IsSlotState c
    → c.generation + n < 2 ^ 32
    → choose_from bs ≡ some (c, stale)
    → Boots n bs bs'
    → (stale' : ℕ) × (choose_from bs' ≡ some (boots n c, stale'))
unfolding boots
boots-recover n bs bs' c stale v fits h Boots.done = (stale, h)
boots-recover n bs bs' c stale v fits h (Boots.cut raw bad h' rest) =
    boots-recover n _ bs' c stale v fits (choose_from-cut raw bs bad h' ∙ (sym h' ∙ h)) rest
boots-recover (suc n) bs bs' c stale v fits h (Boots.written {c = c'} {stale = old} h' rest) =
    let e : c' ≡ c = (chosen (sym h' ∙ h)).0 in
    let v' = subst (λ s. IsSlotState s) (sym e) v in
    let fits' : c'.generation + 1 < 2 ^ 32 = omega (arith, ap (λ s. s.generation) e) in
    let generation = update_record-generation c (omega arith) in
    let next =
      choose_from-written bs (update_record-IsSlotState v')
        (omega (arith, update_record-generation c' fits')) h' in
    boots-recover n _ bs' (update_record c) (other_block old) (update_record-IsSlotState v)
      (omega (arith, generation)) (next ∙ ap (λ s. some (update_record s, other_block old)) e) rest
