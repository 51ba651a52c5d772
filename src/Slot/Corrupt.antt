-- ===== src/Slot/Corrupt.antt =====
-- What the magic and the CRC of a block are good for: which changed bytes are noticed.
use native.Mathlib.Decide.{dec_lt, ℕ_discrete}
use dhruvaos.Base.{
  ℕ, ◌+◌, ◌-◌, if◌then◌else◌, ◌<◌, ◌≤◌, ◌≡◌, ◌≢◌, ap, sym, ◌∙◌, some, none, List, set, length,
  reads, arith, reads_ext, All, All-set, All-get_or, IsByte, get_or-set_self, get_or-set_ne,
  take-set_ge, ◌==◌,
}
use dhruvaos.Crc32.{crc32_bytes}
use dhruvaos.Crc32.Detect.{crc32_bytes-take, crc32_bytes_detects}
use dhruvaos.Slot.{SlotState, at, read_u32_le, read_fields, parse_slot_state}
use dhruvaos.Slot.Words.{read_u32_le-sum}

-- A word does not change where none of its bytes does.
read_u32_le-set_ne :
    (buf : List ℕ) (i v off : ℕ)
    → ((j : ℕ) → j < 4 → i ≢ off + j)
    → read_u32_le (set buf i v) off ≡ read_u32_le buf off
unfolding read_u32_le
read_u32_le-set_ne buf i v off ne = rw (
  get_or-set_ne buf i off v 0 (λ e. ne 0 (omega arith) (omega arith)),
  get_or-set_ne buf i (off + 1) v 0 (ne 1 (omega arith)),
  get_or-set_ne buf i (off + 2) v 0 (ne 2 (omega arith)),
  get_or-set_ne buf i (off + 3) v 0 (ne 3 (omega arith)),
)

crc32_bytes-set_ge :
    (raw : List ℕ) (i v : ℕ) → 96 ≤ i → crc32_bytes (set raw i v) 96 ≡ crc32_bytes raw 96
crc32_bytes-set_ge raw i v h =
    sym (crc32_bytes-take (set raw i v) 96)
    ∙ (ap (λ xs. crc32_bytes xs 96) (take-set_ge 96 raw i v h) ∙ crc32_bytes-take raw 96)

at-set :
    (buf : List ℕ) (i v j : ℕ)
    → i < length buf
    → at (set buf i v) j ≡ (if i == j then v else at buf j)
at-set buf i v j h = elim (ℕ_discrete i j) [
  | yes e ↦ ground (arith, get_or-set_self buf i v 0)
  | no ne ↦ ground (arith, get_or-set_ne buf i j v 0 ne)
]

module _ (raw : List ℕ) (i v : ℕ) (bytes : All IsByte raw) (byte : IsByte v) where
  at-IsByte : (j : ℕ) → IsByte (at raw j)
  at-IsByte j = All-get_or IsByte raw j 0 bytes (omega arith)

  at-set-IsByte : (j : ℕ) → IsByte (at (set raw i v) j)
  at-set-IsByte j =
      All-get_or IsByte (set raw i v) j 0 (All-set IsByte raw i v bytes byte) (omega arith)

  -- It does change where one of its bytes does.
  read_u32_le-set :
      (off k : ℕ)
      → i ≡ off + k
      → k < 4
      → i < length raw
      → v ≢ at raw i
      → read_u32_le (set raw i v) off ≢ read_u32_le raw off
  read_u32_le-set off k e k_lt inside ne same =
      let before =
        read_u32_le-sum raw off (at-IsByte off) (at-IsByte (off + 1)) (at-IsByte (off + 2)) in
      let after =
        read_u32_le-sum (set raw i v) off (at-set-IsByte off) (at-set-IsByte (off + 1))
          (at-set-IsByte (off + 2)) in
      ground (
        arith,
        before,
        after,
        at-set raw i v off inside,
        at-set raw i v (off + 1) inside,
        at-set raw i v (off + 2) inside,
        at-set raw i v (off + 3) inside,
      )

-- In a block that is accepted, the stored CRC is the CRC of the first 96 bytes.
accepted_crc :
    {s : SlotState} (raw : List ℕ)
    → parse_slot_state raw ≡ some s
    → crc32_bytes raw 96 ≡ read_u32_le raw 96
unfolding parse_slot_state
accepted_crc raw h = ground arith

refused : (raw : List ℕ) → crc32_bytes raw 96 ≢ read_u32_le raw 96 → parse_slot_state raw ≡ none
unfolding parse_slot_state
refused raw h = ground arith

-- When one byte of the 100 that a record takes, its CRC included, is replaced by another byte, a
-- block of bytes that was accepted is refused.
pub parse_corrupt :
    {s : SlotState} (raw : List ℕ) (i v : ℕ)
    → All IsByte raw
    → IsByte v
    → i < 100
    → i < length raw
    → v ≢ at raw i
    → parse_slot_state raw ≡ some s
    → parse_slot_state (set raw i v) ≡ none
parse_corrupt raw i v bytes byte lt inside ne h = refused (set raw i v) (elim (dec_lt i 96) [
  | yes p ↦ λ e. crc32_bytes_detects raw 96 i v bytes byte p inside ne (
      e
      ∙ (read_u32_le-set_ne raw i v 96 (λ j q e'. absurd (omega arith)) ∙ sym (accepted_crc raw h)))
  | no p ↦ λ e.
      read_u32_le-set raw i v bytes byte 96 (i - 96) (omega arith) (omega arith) inside ne
        (sym e ∙ (crc32_bytes-set_ge raw i v (omega arith) ∙ accepted_crc raw h))
])

module _ (raw : List ℕ) (i v : ℕ) (h : 100 ≤ i) where
  word_same : (off : ℕ) → off ≤ 96 → read_u32_le (set raw i v) off ≡ read_u32_le raw off
  word_same off le = read_u32_le-set_ne raw i v off (λ j lt e. absurd (omega arith))

  byte_same : (j : ℕ) → j < 100 → at (set raw i v) j ≡ at raw j
  byte_same j lt = get_or-set_ne raw i j v 0 (λ e. absurd (omega arith))

  digest_same : (off : ℕ) → off ≤ 64 → reads (set raw i v) 0 off 32 ≡ reads raw 0 off 32
  digest_same off le = reads_ext (set raw i v) raw 0 off 32 (λ j p q. byte_same j (omega arith))

  fields_same : read_fields (set raw i v) ≡ read_fields raw
  unfolding read_fields
  fields_same = λ k. record {
    generation = word_same 4 (omega arith) k;
    active_slot = byte_same 8 (omega arith) k;
    preferred_slot = byte_same 9 (omega arith) k;
    last_reset_reason = byte_same 10 (omega arith) k;
    attempt_count = word_same 12 (omega arith) k;
    bootlimit = word_same 16 (omega arith) k;
    slot_a_ready = byte_same 20 (omega arith) k;
    slot_b_ready = byte_same 21 (omega arith) k;
    slot_a_len = word_same 24 (omega arith) k;
    slot_b_len = word_same 28 (omega arith) k;
    slot_a_sha256 = digest_same 32 (omega arith) k;
    slot_b_sha256 = digest_same 64 (omega arith) k;
  }

  -- A byte from index 100 on has no influence on what `parse_slot_state` returns.
  pub parse_padding : parse_slot_state (set raw i v) ≡ parse_slot_state raw
  unfolding parse_slot_state
  parse_padding = rw (
    word_same 0 (omega arith),
    word_same 96 (omega arith),
    crc32_bytes-set_ge raw i v (omega arith),
    fields_same,
  )
