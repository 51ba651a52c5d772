-- ===== src/Boot/Select.antt =====
-- Which of the two records a boot goes by, and which block it overwrites.
use dhruvaos.Base.{
  ℕ, ◌≤◌, ◌≡◌, ◌⊎◌, inl, inr, refl, ◌∙◌, ap, Option, none, some, List, arith, leb, ◌==◌,
  if◌then◌else◌, Bool-cases, sym, true, false,
}
use dhruvaos.Slot.{SlotState, parse_slot_state}
use dhruvaos.Boot.{slot_state_block_a, slot_state_block_b, choose}

-- The two blocks that hold a record.
pub record Blocks : Type 0 where
  pub block_a : List ℕ
  pub block_b : List ℕ

unfoldable pub choose_from : Blocks → Option (SlotState × ℕ)
choose_from bs = choose (parse_slot_state bs.block_a) (parse_slot_state bs.block_b)

-- The blocks once `raw` stands in block number `block`.
unfoldable pub overwrite : ℕ → List ℕ → Blocks → Blocks
overwrite block raw bs =
    if block == slot_state_block_a then record bs { block_a = raw } else record bs { block_b = raw }

-- `none` is older than any record.
abbrev pub IsOlder : Option SlotState → SlotState → Type 0
IsOlder none s = Unit
IsOlder (some t) s = t.generation ≤ s.generation

choose-newer_a :
    (a b : SlotState)
    → leb b.generation a.generation ≡ true
    → choose (some a) (some b) ≡ some (a, slot_state_block_b)
unfolding choose
choose-newer_a a b le = rw le refl

choose-newer_b :
    (a b : SlotState)
    → leb b.generation a.generation ≡ false
    → choose (some a) (some b) ≡ some (b, slot_state_block_a)
unfolding choose
choose-newer_b a b gt = rw gt refl

module _ {c : SlotState} {stale : ℕ} where
  pub chosen :
      {s : SlotState} {block : ℕ}
      → ◌≡◌ {A = Option (SlotState × ℕ)} (some (s, block)) (some (c, stale))
      → (s ≡ c) × (block ≡ stale)
  chosen h = (cc h, cc h)

  choose-cases :
      (a b : Option SlotState)
      → choose a b ≡ some (c, stale)
      → ((stale ≡ slot_state_block_b) × (a ≡ some c) × IsOlder b c)
        ⊎ ((stale ≡ slot_state_block_a) × (b ≡ some c) × IsOlder a c)
  unfolding choose
  choose-cases (some a) (some b) h = elim (Bool-cases (leb b.generation a.generation)) [
    | inl le ↦
        let (e, e') = chosen (sym (choose-newer_a a b le) ∙ h) in
        inl (sym e', ap some e, ground (arith, le, ap (λ s. s.generation) e))
    | inr gt ↦
        let (e, e') = chosen (sym (choose-newer_b a b gt) ∙ h) in
        inr (sym e', ap some e, ground (arith, gt, ap (λ s. s.generation) e))
  ]
  choose-cases (some a) none h = let (e, e') = chosen h in inl (sym e', ap some e, tt)
  choose-cases none (some b) h = let (e, e') = chosen h in inr (sym e', ap some e, tt)
  choose-cases none none h = absurd (cc h)

-- The record that is chosen is the one in the block that will not be overwritten, and a record in
-- the other block has no higher generation.
pub choose_from-newest :
    {c : SlotState} {stale : ℕ} (bs : Blocks)
    → choose_from bs ≡ some (c, stale)
    → ((stale ≡ slot_state_block_b)
        × (parse_slot_state bs.block_a ≡ some c)
        × IsOlder (parse_slot_state bs.block_b) c)
      ⊎ ((stale ≡ slot_state_block_a)
          × (parse_slot_state bs.block_b ≡ some c)
          × IsOlder (parse_slot_state bs.block_a) c)
unfolding choose_from
choose_from-newest bs h = choose-cases _ _ h

choose_alone_a :
    (c : SlotState) (b : Option SlotState)
    → b ≡ none
    → choose (some c) b ≡ some (c, slot_state_block_b)
unfolding choose
choose_alone_a c b e = rw e refl

choose_alone_b :
    (c : SlotState) (a : Option SlotState)
    → a ≡ none
    → choose a (some c) ≡ some (c, slot_state_block_a)
unfolding choose
choose_alone_b c a e = rw e refl

-- When the block that is to be overwritten is left without a valid record, the same record and the
-- same block are chosen again.
pub choose_from-cut :
    {c : SlotState} {stale : ℕ} (raw : List ℕ) (bs : Blocks)
    → parse_slot_state raw ≡ none
    → choose_from bs ≡ some (c, stale)
    → choose_from (overwrite stale raw bs) ≡ some (c, stale)
unfolding choose_from overwrite
choose_from-cut {c} {stale} raw bs bad h = elim (choose_from-newest bs h) [
  | inl (e, held, older) ↦ rw (e, held) (choose_alone_a c _ bad)
  | inr (e, held, older) ↦ rw (e, held) (choose_alone_b c _ bad)
]
