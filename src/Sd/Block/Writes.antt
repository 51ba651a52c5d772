-- ===== src/Sd/Block/Writes.antt =====
-- `stage0_sd_write_block`, and what it puts on the bus.
use mathlib.Core.List.{map, map-append}
use mathlib.Core.Path.{subst}
use dhruvaos.Base.{
  ℕ, zero, suc, ◌-◌, ◌^◌, ◌≤◌, ◌≡◌, ◌⊎◌, inl, inr, refl, ap, sym, ◌∙◌, Bool, true, false, List, [],
  ◌∷◌, ◌++◌, append-nil, append_assoc, length, length-drop, take, drop, take-append-drop, ◌==◌,
  if◌then◌else◌, arith,
}
use dhruvaos.Base.Action.{
  Ensures, Ensures-pure, Ensures-if, Ensures-bind, Ensures-weaken, then_gets, pure, ◌>>◌,
}
use dhruvaos.Sd.{Device, Driver, Io, Transfer, sdhcfg_addr}
use dhruvaos.Sd.Access.{IsTimed, Moved, Moved-refl, Moved-trans}
use dhruvaos.Sd.Command.{CmdResult, send_cmd}
use dhruvaos.Sd.Command.Sends.{then_write, transfers_of, IsSent, send_cmd-IsSent}
use dhruvaos.Sd.Block.{
  set_block_length, write_single, card_addr, write_words, transmit, drain, finish_write, write_data,
  sd_write_block,
}
use dhruvaos.Sd.Block.Fifo.{
  write_words-Ensures, fifo_round-Ensures, drain-Ensures, end_transfer-Ensures,
}
use dhruvaos.Sd.Block.Reads.{IsOpening, opened, IsSent-Moved}

-- The words went out in order: all of them, or those before some rest.
abbrev pub IsTransmitted : {H : Type 0} → List ℕ → Driver H → Bool → Driver H → Type 0
IsTransmitted words s true t = Moved (map Transfer.data_out words) s t
IsTransmitted words s false t =
    (gone : List ℕ) × (rest : List ℕ) × (gone ++ rest ≡ words)
    × Moved (map Transfer.data_out gone) s t

quiet-IsTransmitted :
    {H : Type 0} (words : List ℕ) {s t : Driver H} (b : Bool) (u : Driver H)
    → Moved [] s t
    → IsTransmitted words t b u
    → IsTransmitted words s b u
quiet-IsTransmitted words true u h k = Moved-trans h k
quiet-IsTransmitted words false u h (gone, rest, e, moved) = (gone, rest, e, Moved-trans h moved)

more-IsTransmitted :
    {H : Type 0} (first words : List ℕ) {s t : Driver H} (b : Bool) (u : Driver H)
    → Moved (map Transfer.data_out first) s t
    → IsTransmitted words t b u
    → IsTransmitted (first ++ words) s b u
more-IsTransmitted first words true u h k =
    rw (map-append Transfer.data_out first words) (Moved-trans h k)
more-IsTransmitted first words false u h (gone, rest, e, moved) = (
  first ++ gone,
  rest,
  append_assoc first gone rest ∙ ap (λ xs. first ++ xs) e,
  rw (map-append Transfer.data_out first gone) (Moved-trans h moved),
)

none_gone :
    {H : Type 0} (words : List ℕ) {s t : Driver H} → Moved [] s t → IsTransmitted words s false t
none_gone words h = ([], words, refl, h)

module _ (dev : Device) (fuel : ℕ) where
  step :
      (words : List ℕ) (n : ℕ) (rest : Io dev Bool) (s t : Driver dev.Hardware)
      → Moved [] s t
      → ((u : Driver dev.Hardware) → Ensures (IsTransmitted (drop n words) u) (rest u))
      → Ensures (IsTransmitted words s) ((write_words dev fuel (take n words) >> rest) t)
  step words n rest s t h ih =
      Ensures-bind (write_words dev fuel (take n words)) _ t
        (write_words-Ensures dev fuel (take n words) t)
        (λ u v k. Ensures-weaken (ih v) (λ b w r.
          subst (λ xs. IsTransmitted xs s b w) (take-append-drop n words)
            (more-IsTransmitted (take n words) (drop n words) b w (Moved-trans h k) r)))

  transmit-Ensures :
      (rounds waits left : ℕ) (words : List ℕ) (s : Driver dev.Hardware)
      → left ≤ rounds
      → length words ≡ left
      → Ensures (IsTransmitted words s) (transmit dev fuel rounds waits left words s)
  unfolding transmit
  transmit-Ensures rounds waits zero [] s h e = Ensures-pure true s (Moved-refl s)
  transmit-Ensures rounds waits zero (w ∷ ws) s h e = absurd (omega arith)
  transmit-Ensures zero waits (suc left) words s h e = absurd (omega arith)
  transmit-Ensures (suc rounds) zero (suc left) words s h e =
      fifo_round-Ensures dev fuel (λ fill. 16 - fill) (suc left) _ _ s (omega arith)
        (λ t k. Ensures-pure false t (none_gone words k))
        (λ n t pos fits k.
          step words n (transmit dev fuel rounds zero (suc left - n) (drop n words)) s t k (λ u.
            transmit-Ensures rounds zero (suc left - n) (drop n words) u (omega arith)
              (omega (arith, length-drop n words))))
  transmit-Ensures (suc rounds) (suc waits) (suc left) words s h e =
      fifo_round-Ensures dev fuel (λ fill. 16 - fill) (suc left) _ _ s (omega arith)
        (λ t k.
          Ensures-weaken (transmit-Ensures (suc rounds) waits (suc left) words t h e)
            (λ b u r. quiet-IsTransmitted words b u k r))
        (λ n t pos fits k.
          step words n (transmit dev fuel rounds (suc waits) (suc left - n) (drop n words)) s t k
            (λ u.
              transmit-Ensures rounds (suc waits) (suc left - n) (drop n words) u (omega arith)
                (omega (arith, length-drop n words))))

-- A write that succeeds: CMD24 for the block and all words. One that fails has sent no other data
-- than words from the front of the buffer, behind CMD24 for the block.
abbrev pub IsWritten : {H : Type 0} → ℕ → List ℕ → Driver H → Bool → Driver H → Type 0
IsWritten block_num words s true t =
    (pre : List Transfer) × IsOpening pre
    × Moved
        (pre
          ++ (transfers_of (write_single (card_addr s.is_sdhc block_num))
              ++ map Transfer.data_out words))
        s t
IsWritten block_num words s false t =
    (pre : List Transfer) × IsOpening pre
    × (Moved pre s t
        ⊎ ((gone : List ℕ) × (rest : List ℕ) × (gone ++ rest ≡ words)
            × Moved
                (pre
                  ++ (transfers_of (write_single (card_addr s.is_sdhc block_num))
                      ++ map Transfer.data_out gone))
                s t))

module _ (dev : Device) (timed : IsTimed dev) (fuel : ℕ) (enough : 10 ^ 9 ≤ fuel) where
  finish_write-Ensures :
      (s : Driver dev.Hardware) → Ensures (λ b t. Moved [] s t) (finish_write dev fuel s)
  unfolding finish_write
  finish_write-Ensures s =
      Ensures-bind (drain dev fuel 1000000) _ s (drain-Ensures dev fuel 1000000 s) (λ u t h.
        Ensures-weaken (end_transfer-Ensures dev timed fuel enough t) (λ b v k. Moved-trans h k))

  finished :
      (words : List ℕ) (s t : Driver dev.Hardware) (b : Bool) (u : Driver dev.Hardware)
      → Moved (map Transfer.data_out words) s t
      → Moved [] t u
      → IsTransmitted words s b u
  finished words s t true u h k = subst (λ xs. Moved xs s u) (append-nil _) (Moved-trans h k)
  finished words s t false u h k =
      (words, [], append-nil words, subst (λ xs. Moved xs s u) (append-nil _) (Moved-trans h k))

  after_transmit :
      (words : List ℕ) (s t : Driver dev.Hardware) (sent : Bool)
      → IsTransmitted words s sent t
      → Ensures (IsTransmitted words s) ((if sent then finish_write dev fuel else pure false) t)
  after_transmit words s t true h =
      Ensures-weaken (finish_write-Ensures t) (λ b u k. finished words s t b u h k)
  after_transmit words s t false h = Ensures-pure false t h

  write_data-Ensures :
      (words : List ℕ) (s : Driver dev.Hardware)
      → length words ≡ 128
      → Ensures (IsTransmitted words s) (write_data dev fuel words s)
  unfolding write_data
  write_data-Ensures words s size =
      Ensures-bind (transmit dev fuel 128 20000000 128 words) _ s
        (transmit-Ensures dev fuel 128 20000000 128 words s (omega arith) size)
        (λ sent t h. after_transmit words s t sent h)

  join_parts :
      (block_num : ℕ) (words : List ℕ) (pre : List Transfer) (s t u : Driver dev.Hardware)
      (b : Bool) (v : Driver dev.Hardware)
      → IsOpening pre
      → Moved pre s t
      → Moved (transfers_of (write_single (card_addr s.is_sdhc block_num))) t u
      → IsTransmitted words u b v
      → IsWritten block_num words s b v
  join_parts block_num words pre s t u true v is h k r = (pre, is, Moved-trans h (Moved-trans k r))
  join_parts block_num words pre s t u false v is h k (gone, rest, e, r) =
      (pre, is, inr (gone, rest, e, Moved-trans h (Moved-trans k r)))

  refused :
      (block_num : ℕ) (words : List ℕ) (pre : List Transfer) (s t u : Driver dev.Hardware)
      (r : CmdResult)
      → IsOpening pre
      → Moved pre s t
      → IsSent (write_single (card_addr s.is_sdhc block_num)) t r u
      → IsWritten block_num words s false u
  refused block_num words pre s t u r is h (inl k) = (
    pre,
    is,
    inr ([], words, refl, Moved-trans h (subst (λ xs. Moved xs t u) (sym (append-nil _)) k)),
  )
  refused block_num words pre s t u r is h (inr (k, e)) =
      (pre, is, inl (subst (λ xs. Moved xs s u) (append-nil pre) (Moved-trans h k)))

  -- On timed hardware, with fuel of 10 ^ 9 and 128 words, `stage0_sd_write_block` returns. When it
  -- succeeds, what has passed on the bus is CMD16, unless that failed before it was sent, then
  -- CMD24 for the block, and then all 128 words in order. When it fails, CMD24 was not sent, or the
  -- words that were sent are the first ones of the block.
  pub sd_write_block-IsWritten :
      (block_num : ℕ) (words : List ℕ) (s : Driver dev.Hardware)
      → length words ≡ 128
      → Ensures (IsWritten block_num words s) (sd_write_block dev fuel block_num words s)
  unfolding sd_write_block
  sd_write_block-IsWritten block_num words s size =
      let c = write_single (card_addr s.is_sdhc block_num) in
      then_gets (λ d. d.is_sdhc) _ s
        (Ensures-bind (send_cmd dev fuel set_block_length) _ s
          (send_cmd-IsSent dev timed fuel enough set_block_length s)
          (λ r t sent. then_write dev sdhcfg_addr 0x40A _ t (λ t' h.
            let (pre, is, moved) = opened s r t sent in
            let before = subst (λ xs. Moved xs s t') (append-nil pre) (Moved-trans moved h) in
            Ensures-bind (send_cmd dev fuel c) _ t' (send_cmd-IsSent dev timed fuel enough c t')
              (λ rr u sent'.
                Ensures-if (rr.err == 0) _ _ u
                  (λ e. Ensures-weaken (write_data-Ensures words u size) (λ b v r'.
                    join_parts block_num words pre s t' u b v is before
                      (IsSent-Moved c t' rr u sent' e) r'))
                  (λ e.
                    Ensures-pure false u
                      (refused block_num words pre s t' u rr is before sent'))))))
