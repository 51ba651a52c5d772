-- ===== src/Sd/Block.antt =====
-- `stage0_sd_read_block` and `stage0_sd_write_block`: one block of 128 words through the FIFO.
pub mod Fifo
pub mod Reads
pub mod Writes
use dhruvaos.Base.{
  ℕ, zero, suc, ◌+◌, ◌-◌, ◌*◌, ◌/◌, ◌^◌, min, bit_and, bit_or, Bool, true, false, ◌||◌, Option,
  none, some, List, [], ◌∷◌, ◌++◌, take, drop, ltb, ◌==◌, if◌then◌else◌, u32,
}
use dhruvaos.Base.Action.{Action, pure, diverge, gets, ◌>>=◌, ◌>>◌}
use dhruvaos.Sd.{
  Device, Io, mmio_r, mmio_w, poll_for, sdhsts_addr, sdedm_addr, sdhcfg_addr, sddata_addr,
  timeout_us,
}
use dhruvaos.Sd.Command.{Command, CmdResult, is_idle, send_cmd}

-- CMD16, CMD17 and CMD24 with their parameters.
abbrev pub set_block_length : Command
set_block_length = record {
  cmd_idx = 16;
  arg = 512;
  resp_present = true;
  resp_136 = false;
  resp_busy = false;
  data_blksz = 0;
  data_blocks = 0;
  is_read = false;
  is_write = false;
  allow_crc7_tolerance = false;
  ignore_fail_flag = false;
}

abbrev pub read_single : ℕ → Command
read_single addr = record {
  cmd_idx = 17;
  arg = addr;
  resp_present = true;
  resp_136 = false;
  resp_busy = false;
  data_blksz = 512;
  data_blocks = 1;
  is_read = true;
  is_write = false;
  allow_crc7_tolerance = false;
  ignore_fail_flag = false;
}

abbrev pub write_single : ℕ → Command
write_single addr = record {
  cmd_idx = 24;
  arg = addr;
  resp_present = true;
  resp_136 = false;
  resp_busy = false;
  data_blksz = 512;
  data_blocks = 1;
  is_read = false;
  is_write = true;
  allow_crc7_tolerance = false;
  ignore_fail_flag = false;
}

-- `s_is_sdhc ? block_num : (block_num * 512u)`
unfoldable pub card_addr : Bool → ℕ → ℕ
card_addr is_sdhc block_num = if is_sdhc then block_num else u32 (block_num * 512)

-- `(edm >> 4) & 0x1Fu`, the words in the FIFO.
unfoldable pub fill_of : ℕ → ℕ
fill_of edm = bit_and (edm / 2 ^ 4) 0x1F

-- `edm & ~SDEDM_FORCE_DATA_MODE_BIT`
unfoldable pub unforced : ℕ → ℕ
unforced edm = bit_and edm (2 ^ 32 - 1 - 2 ^ 19)

-- READWAIT, WRITESTART1 or READDATA.
unfoldable pub is_wedged : ℕ → Bool
is_wedged edm = (bit_and edm 0xF == 4) || (bit_and edm 0xF == 10) || (bit_and edm 0xF == 2)

module _ (dev : Device) (fuel : ℕ) where
  -- `stage0_force_data_mode_settle`, with `iters` polls to go.
  unfoldable pub force_data_mode_settle : ℕ → Io dev (Unit {0})
  force_data_mode_settle zero = do edm ← mmio_r dev sdedm_addr; mmio_w dev sdedm_addr (unforced edm)
  force_data_mode_settle (suc iters) =
      let again = force_data_mode_settle iters in
      do
        edm ← mmio_r dev sdedm_addr
        if is_idle edm then mmio_w dev sdedm_addr (unforced edm) else again

  -- The branch for a state machine that is wedged.
  unfoldable pub force_data_mode : ℕ → Io dev (Option (Unit {0}))
  force_data_mode edm = do
    mmio_w dev sdedm_addr (bit_or edm (2 ^ 19))
    force_data_mode_settle 1000
    pure (some tt)

  -- One round of the loop that waits for the state machine.
  unfoldable pub transfer_done : Io dev (Option (Unit {0}))
  transfer_done = do
    edm ← mmio_r dev sdedm_addr
    if is_idle edm then pure (some tt) else if is_wedged edm then force_data_mode edm else pure none

  -- The last check, after the wait; `none` is its timeout.
  unfoldable pub check_errors : Option (Unit {0}) → Io dev Bool
  check_errors none = pure false
  check_errors (some u) = do
    sdhsts ← mmio_r dev sdhsts_addr
    mmio_w dev sdhsts_addr (bit_and sdhsts 0xF8)
    pure (bit_and sdhsts 0xF8 == 0)

  unfoldable pub wait_idle : Io dev Bool
  wait_idle = do got ← poll_for dev fuel timeout_us transfer_done; check_errors got

  -- What follows the data in both functions; `false` is the return of -9.
  unfoldable pub end_transfer : Io dev Bool
  end_transfer = do
    sdhsts ← mmio_r dev sdhsts_addr
    if bit_and sdhsts 0xF8 == 0 then wait_idle else pure false

  unfoldable pub read_words : ℕ → Io dev (List ℕ)
  read_words zero = pure []
  read_words (suc n) = do v ← mmio_r dev sddata_addr; rest ← read_words n; pure (v ∷ rest)

  unfoldable pub write_words : List ℕ → Io dev (Unit {0})
  write_words [] = pure tt
  write_words (w ∷ ws) = do mmio_w dev sddata_addr w; write_words ws

  -- A round of the loops over the FIFO with `left` words to go: fewer than a burst are `available`,
  -- or as many as there are pass.
  unfoldable pub fifo_round : {A : Type 0} → (ℕ → ℕ) → ℕ → Io dev A → (ℕ → Io dev A) → Io dev A
  fifo_round available left wait pass = do
    edm ← mmio_r dev sdedm_addr
    if ltb (available (fill_of edm)) (min 8 left)
        then wait
        else pass (min (available (fill_of edm)) left)

  -- `while (copy_words > 0)`, with `waits` more rounds that only wait, and at most `rounds` others;
  -- `none` is the return of -9.
  unfoldable pub receive : ℕ → ℕ → ℕ → List ℕ → Io dev (Option (List ℕ))
  receive rounds waits zero words = pure (some words)
  receive zero waits (suc left) words = diverge
  receive (suc rounds) zero (suc left) words =
      fifo_round (λ fill. fill) (suc left) (pure none)
        λ n. do more ← read_words n; receive rounds zero (suc left - n) (words ++ more)
  receive (suc rounds) (suc waits) (suc left) words =
      fifo_round (λ fill. fill) (suc left) (receive (suc rounds) waits (suc left) words)
        λ n. do more ← read_words n; receive rounds (suc waits) (suc left - n) (words ++ more)

  -- `while (fill_words > 0)`; `false` is the return of -9.
  unfoldable pub transmit : ℕ → ℕ → ℕ → List ℕ → Io dev Bool
  transmit rounds waits zero words = pure true
  transmit zero waits (suc left) words = diverge
  transmit (suc rounds) zero (suc left) words =
      fifo_round (λ fill. 16 - fill) (suc left) (pure false)
        λ n. do write_words (take n words); transmit rounds zero (suc left - n) (drop n words)
  transmit (suc rounds) (suc waits) (suc left) words =
      fifo_round (λ fill. 16 - fill) (suc left) (transmit (suc rounds) waits (suc left) words)
        λ n. do
          write_words (take n words)
          transmit rounds (suc waits) (suc left - n) (drop n words)

  -- `while (fifo_drain_iter < 1000000LL)`, with `iters` polls to go.
  unfoldable pub drain : ℕ → Io dev (Unit {0})
  drain zero = pure tt
  drain (suc iters) =
      let again = drain iters in
      do edm ← mmio_r dev sdedm_addr; if fill_of edm == 0 then pure tt else again

  unfoldable pub received : Option (List ℕ) → Io dev (Option (List ℕ))
  received none = pure none
  received (some words) = do fine ← end_transfer; pure (if fine then some words else none)

  -- What follows CMD17.
  unfoldable pub read_data : Io dev (Option (List ℕ))
  read_data = do got ← receive 128 20000000 128 []; received got

  -- `none` is the return of -9.
  unfoldable pub sd_read_block : ℕ → Io dev (Option (List ℕ))
  sd_read_block block_num = do
    is_sdhc ← gets (λ d. d.is_sdhc)
    send_cmd dev fuel set_block_length
    mmio_w dev sdhcfg_addr 0x40A
    rr ← send_cmd dev fuel (read_single (card_addr is_sdhc block_num))
    if rr.err == 0 then read_data else pure none

  unfoldable pub finish_write : Io dev Bool
  finish_write = do drain 1000000; end_transfer

  -- What follows CMD24.
  unfoldable pub write_data : List ℕ → Io dev Bool
  write_data words = do
    sent ← transmit 128 20000000 128 words
    if sent then finish_write else pure false

  -- For the 128 words of `buf`; `false` is the return of -9.
  unfoldable pub sd_write_block : ℕ → List ℕ → Io dev Bool
  sd_write_block block_num words = do
    is_sdhc ← gets (λ d. d.is_sdhc)
    send_cmd dev fuel set_block_length
    mmio_w dev sdhcfg_addr 0x40A
    rr ← send_cmd dev fuel (write_single (card_addr is_sdhc block_num))
    if rr.err == 0 then write_data words else pure false
