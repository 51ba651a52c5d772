-- ===== src/Sd/Command/Word.antt =====
-- The command word as a sum of its fields.
use dhruvaos.Base.{
  ℕ, ◌+◌, ◌%◌, ◌^◌, ◌<◌, ◌≡◌, refl, inl, inr, Bool, true, false, Bool-cases, bit_or, ◌==◌, ==_iff,
  if◌then◌else◌, arith, all_below, all_below_sound,
}
use mathlib.Core.Bool.{false≢true}
use dhruvaos.Base.Bits.{bit_and_low}
use dhruvaos.Sd.Command.{Command, command_word}

-- NEW_FLAG, the 6 bits of the index, the direction of the data, and the kind of the response.
abbrev pub word_of : Command → ℕ
word_of c =
    2 ^ 15
    + (if c.resp_present
        then (if c.resp_busy then 2 ^ 11 else 0) + (if c.resp_136 then 2 ^ 9 else 0)
        else 2 ^ 10)
    + (if c.is_write then 2 ^ 7 else 0)
    + (if c.is_read then 2 ^ 6 else 0)
    + c.cmd_idx % 2 ^ 6

abbrev flagged : ℕ → Bool → Bool → Bool → Bool → Bool → ℕ
flagged base present long busy reading writing =
    let kind =
      (if present
        then (if busy
            then bit_or (if long then bit_or base 0x200 else base) 0x800
            else if long
            then bit_or base 0x200
            else base)
        else bit_or base 0x400) in
    let read = if reading then bit_or kind 0x40 else kind in
    bit_or (if writing then bit_or read 0x80 else read) 0x8000

abbrev summed : ℕ → Bool → Bool → Bool → Bool → Bool → ℕ
summed base present long busy reading writing =
    2 ^ 15
    + (if present then (if busy then 2 ^ 11 else 0) + (if long then 2 ^ 9 else 0) else 2 ^ 10)
    + (if writing then 2 ^ 7 else 0)
    + (if reading then 2 ^ 6 else 0)
    + base

-- A test of both Booleans.
abbrev both : (Bool → Bool) → Bool
both f = if f true then f false else false

both_sound : (f : Bool → Bool) → both f ≡ true → (b : Bool) → f b ≡ true
both_sound f h b = elim (Bool-cases (f true)) [
  | inl e ↦ each e b
  | inr e ↦ absurd (false≢true (rw e at h))
]
  where
    each : f true ≡ true → (b : Bool) → f b ≡ true
    each e true = e
    each e false = rw e at h

agrees : ℕ → Bool → Bool → Bool → Bool → Bool → Bool
agrees base p l b r w = flagged base p l b r w == summed base p l b r w

abbrev for_writing : Bool → Bool → Bool → Bool → Bool → Bool
for_writing p l b r w = all_below (λ base. agrees base p l b r w) 64

abbrev for_reading : Bool → Bool → Bool → Bool → Bool
for_reading p l b r = both (for_writing p l b r)

abbrev for_busy : Bool → Bool → Bool → Bool
for_busy p l b = both (for_reading p l b)

abbrev for_long : Bool → Bool → Bool
for_long p l = both (for_busy p l)

abbrev for_present : Bool → Bool
for_present p = both (for_long p)

agrees_everywhere : both for_present ≡ true
unfolding agrees
agrees_everywhere = refl

agrees_lem :
    (base : ℕ) (p l b r w : Bool) → base < 64 → flagged base p l b r w ≡ summed base p l b r w
unfolding agrees
agrees_lem base p l b r w small =
    let h = both_sound for_present agrees_everywhere p in
    let h' = both_sound (for_long p) h l in
    let h'' = both_sound (for_busy p l) h' b in
    let found = both_sound (for_writing p l b r) (both_sound (for_reading p l b) h'' r) w in
    (==_iff (flagged base p l b r w) (summed base p l b r w)).0
      (all_below_sound (λ x. agrees x p l b r w) 64 base found small)

pub command_word_lem : (c : Command) → command_word c ≡ word_of c
unfolding command_word
command_word_lem c = rw (bit_and_low 6 0x3F c.cmd_idx refl) (
    agrees_lem (c.cmd_idx % 2 ^ 6) c.resp_present c.resp_136 c.resp_busy c.is_read c.is_write
      (omega arith))
