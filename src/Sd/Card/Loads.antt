-- ===== src/Sd/Card/Loads.antt =====
-- The loading loop of `stage0_main` over the SD driver.
use mathlib.Core.List.{map}
use mathlib.Core.Path.{subst}
use dhruvaos.Base.{
  ℕ, zero, suc, ◌+◌, ◌^◌, ◌≤◌, ◌≡◌, sym, ◌∙◌, Option, none, some, List, [], ◌++◌, append-nil,
  append_assoc, length, reads, reads_all, arith, Bool,
}
use dhruvaos.Sd.{Device, Driver, Transfer}
use dhruvaos.Sd.Access.{IsTimed, Moved, Moved-refl, Moved-trans}
use dhruvaos.Sd.Command.Sends.{transfers_of}
use dhruvaos.Sd.Block.{read_single, card_addr}
use dhruvaos.Sd.Block.Reads.{IsOpening, IsRead, sd_read_block-IsRead}
use dhruvaos.Sd.Card.{bytes_of, block_bytes, sd_card}
use dhruvaos.Sd.Card.Bytes.{length-bytes_of}
use dhruvaos.Boot.Run
use dhruvaos.Boot.Run.{World, Loaded, load_blocks}

-- The blocks from `n` on, as the bytes that the transfers hold: each is asked for with CMD17, and its
-- 128 words follow.
pub data IsLoading (is_sdhc : Bool) : ℕ → List ℕ → List Transfer → Type 0 where
  none_left : {n : ℕ} → IsLoading is_sdhc n [] []
  one_more :
      {n : ℕ} (pre : List Transfer) (ws bytes : List ℕ) (ts : List Transfer)
      → IsOpening pre
      → length ws ≡ 128
      → IsLoading is_sdhc (n + 1) bytes ts
      → IsLoading is_sdhc n (bytes_of ws ++ bytes) (
          (pre ++ (transfers_of (read_single (card_addr is_sdhc n)) ++ map Transfer.data_in ws))
          ++ ts)

module _ (dev : Device) (timed : IsTimed dev) (fuel : ℕ) (enough : 10 ^ 9 ≤ fuel) where
  abbrev pub Booted : Type 0
  Booted = World (sd_card dev timed fuel enough)

  abbrev pub IsLoadedFrom :
      ℕ → List ℕ → Driver dev.Hardware → Loaded (sd_card dev timed fuel enough) → Type 0
  IsLoadedFrom n old s (Run.Loaded.failed i w) = Unit
  IsLoadedFrom n old s (Run.Loaded.loaded memory w) =
      (bytes : List ℕ) × (ts : List Transfer) × (memory ≡ old ++ bytes)
      × IsLoading s.is_sdhc n bytes ts
      × Moved ts s w.card

  extended :
      (n : ℕ) (old : List ℕ) (pre : List Transfer) (ws : List ℕ) (s t : Driver dev.Hardware)
      (r : Loaded (sd_card dev timed fuel enough))
      → IsOpening pre
      → length ws ≡ 128
      → Moved
          (pre ++ (transfers_of (read_single (card_addr s.is_sdhc n)) ++ map Transfer.data_in ws))
          s
          t
      → IsLoadedFrom (n + 1) (old ++ bytes_of ws) t r
      → IsLoadedFrom n old s r
  extended n old pre ws s t (Run.Loaded.failed i w) is size h k = tt
  extended n old pre ws s t (Run.Loaded.loaded memory w) is size h (bytes, ts, e, l, moved) = (
    bytes_of ws ++ bytes,
    _,
    e ∙ append_assoc old (bytes_of ws) bytes,
    one_more pre ws bytes ts is size (subst (λ b. IsLoading b (n + 1) bytes ts) h.is_sdhc l),
    Moved-trans h moved,
  )

  after_read :
      (base left i : ℕ) (w : Booted) (memory : List ℕ) (o : Option (List ℕ))
      (t : Driver dev.Hardware)
      → IsRead (base + i) w.card o t
      → ((old : List ℕ)
          → IsLoadedFrom (base + (i + 1)) old t (
              load_blocks
                (sd_card dev timed fuel enough)
                base
                left
                (i + 1)
                (record w { card = t })
                old))
      → IsLoadedFrom (base + i) memory w.card (elim (block_bytes o) [
        | none ↦ Run.Loaded.failed i (record w { card = t })
        | some block ↦
            load_blocks
              (sd_card dev timed fuel enough)
              base
              left
              (i + 1)
              (record w { card = t })
              (memory ++ reads block 0 0 512)
      ])
  after_read base left i w memory none t h rest = tt
  after_read base left i w memory (some ws) t (pre, is, size, h) rest =
      let whole : length (bytes_of ws) ≡ 512 = omega (arith, length-bytes_of ws, size) in
      let all : reads (bytes_of ws) 0 0 512 ≡ bytes_of ws =
        subst (λ n. reads (bytes_of ws) 0 0 n ≡ bytes_of ws) whole (reads_all (bytes_of ws) 0) in
      let next : base + (i + 1) ≡ base + i + 1 = omega arith in
      let r =
        load_blocks (sd_card dev timed fuel enough) base left (i + 1) (record w { card = t })
          (memory ++ bytes_of ws) in
      rw all (
        extended (base + i) memory pre ws w.card t r is size h (
          subst (λ n. IsLoadedFrom n (memory ++ bytes_of ws) t r) next
            (rest (memory ++ bytes_of ws))))

  pub load_blocks-IsLoadedFrom :
      (base left i : ℕ) (w : Booted) (memory : List ℕ)
      → IsLoadedFrom
          (base + i)
          memory
          w.card
          (load_blocks (sd_card dev timed fuel enough) base left i w memory)
  unfolding load_blocks
  load_blocks-IsLoadedFrom base zero i w memory =
      ([], [], sym (append-nil memory), none_left, Moved-refl w.card)
  load_blocks-IsLoadedFrom base (suc left) i w memory =
      let run = sd_read_block-IsRead dev timed fuel enough (base + i) w.card in
      after_read base left i w memory run.result run.state run.post
        (λ old. load_blocks-IsLoadedFrom base left (i + 1) (record w { card = run.state }) old)
