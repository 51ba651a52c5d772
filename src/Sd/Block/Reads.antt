-- ===== src/Sd/Block/Reads.antt =====
-- `stage0_sd_read_block`, and what it puts on the bus.
use mathlib.Core.List.{map, map-append}
use mathlib.Core.Path.{subst}
use dhruvaos.Base.{
  ℕ, zero, suc, ◌-◌, ◌^◌, ◌≤◌, ◌≡◌, ◌⊎◌, inl, inr, refl, sym, ◌∙◌, Option, none, some, Bool, true,
  false, List, [], ◌++◌, append-nil, append_assoc, length, length-append, ◌==◌, ==_iff,
  if◌then◌else◌, arith,
}
use dhruvaos.Base.Action.{
  Ensures, Ensures-pure, Ensures-if, Ensures-bind, Ensures-weaken, then_gets, ◌>>=◌,
}
use dhruvaos.Sd.{Device, Driver, Io, Transfer, sdhcfg_addr}
use dhruvaos.Sd.Access.{IsTimed, Moved, Moved-refl, Moved-trans}
use dhruvaos.Sd.Command.{Command, CmdResult, send_cmd}
use dhruvaos.Sd.Command.Sends.{then_write, transfers_of, IsSent, send_cmd-IsSent}
use dhruvaos.Sd.Block.{
  set_block_length, read_single, card_addr, read_words, receive, received, end_transfer, read_data,
  sd_read_block,
}
use dhruvaos.Sd.Block.Fifo.{read_words-Ensures, fifo_round-Ensures, end_transfer-Ensures}

-- Some transfers were made, and the card's address and kind are as before.
pub record Kept {H : Type 0} (s t : Driver H) : Type 0 where
  pub made : List Transfer
  pub moved : Moved made s t

pub Moved-Kept : {H : Type 0} {ts : List Transfer} {s t : Driver H} → Moved ts s t → Kept s t
Moved-Kept {ts = ts} h = record { made = ts; moved = h }

pub Kept-trans : {H : Type 0} {s t u : Driver H} → Kept s t → Kept t u → Kept s u
Kept-trans h k = record { made = h.made ++ k.made; moved = Moved-trans h.moved k.moved }

-- `left` words were read behind `old` ones, as they came from the data register.
abbrev IsReceived : {H : Type 0} → List ℕ → ℕ → Driver H → Option (List ℕ) → Driver H → Type 0
IsReceived old left s none t = Kept s t
IsReceived old left s (some ws) t =
    (new : List ℕ) × (ws ≡ old ++ new) × (length new ≡ left) × Moved (map Transfer.data_in new) s t

quiet-IsReceived :
    {H : Type 0} (old : List ℕ) (left : ℕ) {s t : Driver H} (o : Option (List ℕ)) (u : Driver H)
    → Moved [] s t
    → IsReceived old left t o u
    → IsReceived old left s o u
quiet-IsReceived old left none u h k = Kept-trans (Moved-Kept h) k
quiet-IsReceived old left (some ws) u h (new, e, size, moved) = (new, e, size, Moved-trans h moved)

more-IsReceived :
    {H : Type 0} (old more : List ℕ) (left n : ℕ) {s t : Driver H} (o : Option (List ℕ))
    (u : Driver H)
    → length more ≡ n
    → n ≤ left
    → Moved (map Transfer.data_in more) s t
    → IsReceived (old ++ more) (left - n) t o u
    → IsReceived old left s o u
more-IsReceived old more left n none u size fits h k = Kept-trans (Moved-Kept h) k
more-IsReceived old more left n {s} {t} (some ws) u size fits h (new, e, size', moved) = (
  more ++ new,
  e ∙ append_assoc old more new,
  omega (arith, length-append more new, size, size'),
  rw (map-append Transfer.data_in more new) (Moved-trans h moved),
)

module _ (dev : Device) (fuel : ℕ) where
  step :
      (old : List ℕ) (left n : ℕ) (rest : List ℕ → Io dev (Option (List ℕ)))
      (s t : Driver dev.Hardware)
      → n ≤ left
      → Moved [] s t
      → ((ws : List ℕ) (u : Driver dev.Hardware)
          → Ensures (IsReceived (old ++ ws) (left - n) u) (rest (old ++ ws) u))
      → Ensures (IsReceived old left s) ((read_words dev fuel n >>= λ more. rest (old ++ more)) t)
  step old left n rest s t fits h ih =
      Ensures-bind (read_words dev fuel n) _ t (read_words-Ensures dev fuel n t)
        (λ more u (size, k).
          Ensures-weaken (ih more u)
            (λ o v r. more-IsReceived old more left n o v size fits (Moved-trans h k) r))

  receive-Ensures :
      (rounds waits left : ℕ) (old : List ℕ) (s : Driver dev.Hardware)
      → left ≤ rounds
      → Ensures (IsReceived old left s) (receive dev fuel rounds waits left old s)
  unfolding receive
  receive-Ensures rounds waits zero old s h =
      Ensures-pure (some old) s ([], sym (append-nil old), refl, Moved-refl s)
  receive-Ensures zero waits (suc left) old s h = absurd (omega arith)
  receive-Ensures (suc rounds) zero (suc left) old s h =
      fifo_round-Ensures dev fuel (λ fill. fill) (suc left) _ _ s (omega arith)
        (λ t k. Ensures-pure none t (Moved-Kept k))
        (λ n t pos fits k.
          step old (suc left) n (receive dev fuel rounds zero (suc left - n)) s t fits k
            (λ ws u. receive-Ensures rounds zero (suc left - n) (old ++ ws) u (omega arith)))
  receive-Ensures (suc rounds) (suc waits) (suc left) old s h =
      fifo_round-Ensures dev fuel (λ fill. fill) (suc left) _ _ s (omega arith)
        (λ t k.
          Ensures-weaken (receive-Ensures (suc rounds) waits (suc left) old t h)
            (λ o u r. quiet-IsReceived old (suc left) o u k r))
        (λ n t pos fits k.
          step old (suc left) n (receive dev fuel rounds (suc waits) (suc left - n)) s t fits k
            (λ ws u. receive-Ensures rounds (suc waits) (suc left - n) (old ++ ws) u (omega arith)))

-- CMD16, unless it failed before it was sent, which is not looked at.
abbrev pub IsOpening : List Transfer → Type 0
IsOpening pre = (pre ≡ []) ⊎ (pre ≡ transfers_of set_block_length)

pub opened :
    {H : Type 0} (s : Driver H) (r : CmdResult) (t : Driver H)
    → IsSent set_block_length s r t
    → (pre : List Transfer) × IsOpening pre × Moved pre s t
opened s r t (inl h) = (transfers_of set_block_length, inr refl, h)
opened s r t (inr (h, e)) = ([], inl refl, h)

pub IsSent-Kept :
    {H : Type 0} (c : Command) (s : Driver H) (r : CmdResult) (t : Driver H)
    → IsSent c s r t
    → Kept s t
IsSent-Kept c s r t (inl h) = Moved-Kept h
IsSent-Kept c s r t (inr (h, e)) = Moved-Kept h

pub IsSent-Moved :
    {H : Type 0} (c : Command) (s : Driver H) (r : CmdResult) (t : Driver H)
    → IsSent c s r t
    → (r.err == 0) ≡ true
    → Moved (transfers_of c) s t
IsSent-Moved c s r t (inl h) e = h
IsSent-Moved c s r t (inr (h, ne)) e = absurd (ne ((==_iff r.err 0).0 e))

-- A read that succeeds: CMD17 for the block, and the 128 words from the data register in order.
abbrev pub IsRead : {H : Type 0} → ℕ → Driver H → Option (List ℕ) → Driver H → Type 0
IsRead block_num s none t = Kept s t
IsRead block_num s (some ws) t =
    (pre : List Transfer) × IsOpening pre
    × (length ws ≡ 128)
    × Moved
        (pre
          ++ (transfers_of (read_single (card_addr s.is_sdhc block_num))
              ++ map Transfer.data_in ws))
        s t

module _ (dev : Device) (timed : IsTimed dev) (fuel : ℕ) (enough : 10 ^ 9 ≤ fuel) where
  abbrev IsData : Driver dev.Hardware → Option (List ℕ) → Driver dev.Hardware → Type 0
  IsData s none t = Kept s t
  IsData s (some ws) t = (length ws ≡ 128) × Moved (map Transfer.data_in ws) s t

  kept_if :
      (fine : Bool) (ws : List ℕ) (s t : Driver dev.Hardware)
      → (length ws ≡ 128)
      → Moved (map Transfer.data_in ws) s t
      → IsData s (if fine then some ws else none) t
  kept_if true ws s t size h = (size, h)
  kept_if false ws s t size h = Moved-Kept h

  received-Ensures :
      (o : Option (List ℕ)) (s t : Driver dev.Hardware)
      → IsReceived [] 128 s o t
      → Ensures (IsData s) (received dev fuel o t)
  unfolding received
  received-Ensures none s t h = Ensures-pure none t h
  received-Ensures (some ws) s t (new, e, size, moved) =
      Ensures-bind (end_transfer dev fuel) _ t (end_transfer-Ensures dev timed fuel enough t)
        (λ fine u k. Ensures-pure _ u (
          kept_if fine ws s u (rw e size)
            (subst (λ xs. Moved xs s u) (append-nil _) (rw e (Moved-trans moved k)))))

  read_data-Ensures : (s : Driver dev.Hardware) → Ensures (IsData s) (read_data dev fuel s)
  unfolding read_data
  read_data-Ensures s =
      Ensures-bind (receive dev fuel 128 20000000 128 []) _ s
        (receive-Ensures dev fuel 128 20000000 128 [] s (omega arith))
        (λ o t h. received-Ensures o s t h)

  join_parts :
      (block_num : ℕ) (pre : List Transfer) (s t u : Driver dev.Hardware) (o : Option (List ℕ))
      (v : Driver dev.Hardware)
      → IsOpening pre
      → Moved pre s t
      → Moved (transfers_of (read_single (card_addr s.is_sdhc block_num))) t u
      → IsData u o v
      → IsRead block_num s o v
  join_parts block_num pre s t u none v is h k r =
      Kept-trans (Moved-Kept h) (Kept-trans (Moved-Kept k) r)
  join_parts block_num pre s t u (some ws) v is h k (size, r) =
      (pre, is, size, Moved-trans h (Moved-trans k r))

  -- On timed hardware, with fuel of 10 ^ 9, `stage0_sd_read_block` returns. When it succeeds it
  -- returns 128 words, and what has passed on the bus is CMD16, unless that failed before it was
  -- sent, then CMD17 for the block, and then these 128 words in order and no other.
  pub sd_read_block-IsRead :
      (block_num : ℕ) (s : Driver dev.Hardware)
      → Ensures (IsRead block_num s) (sd_read_block dev fuel block_num s)
  unfolding sd_read_block
  sd_read_block-IsRead block_num s =
      let c = read_single (card_addr s.is_sdhc block_num) in
      then_gets (λ d. d.is_sdhc) _ s
        (Ensures-bind (send_cmd dev fuel set_block_length) _ s
          (send_cmd-IsSent dev timed fuel enough set_block_length s)
          (λ r t sent. then_write dev sdhcfg_addr 0x40A _ t (λ t' h.
            let (pre, is, moved) = opened s r t sent in
            let before = subst (λ xs. Moved xs s t') (append-nil pre) (Moved-trans moved h) in
            Ensures-bind (send_cmd dev fuel c) _ t' (send_cmd-IsSent dev timed fuel enough c t')
              (λ rr u sent'.
                Ensures-if (rr.err == 0) _ _ u
                  (λ e. Ensures-weaken (read_data-Ensures u) (λ o v data_read.
                    join_parts block_num pre s t' u o v is before (IsSent-Moved c t' rr u sent' e)
                      data_read))
                  (λ e.
                    Ensures-pure none u
                      (Kept-trans (Moved-Kept before) (IsSent-Kept c t' rr u sent')))))))
