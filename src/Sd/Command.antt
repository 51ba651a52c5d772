-- ===== src/Sd/Command.antt =====
-- `stage0_send_cmd`: one command to the card, and its response.
pub mod Word
pub mod Sends
use dhruvaos.Base.{
  ℕ, ◌+◌, ◌-◌, ◌^◌, bit_and, bit_or, Bool, true, false, not, ◌&&◌, ◌||◌, Option, none, some, List,
  [], ◌∷◌, ◌==◌, if◌then◌else◌,
}
use dhruvaos.Base.Action.{Action, pure, ◌>>=◌, ◌>>◌}
use dhruvaos.Sd.{
  Device, Io, Line, mmio_r, mmio_w, poll_for, print, sdcmd_addr, sdarg_addr, sdrsp0_addr,
  sdrsp1_addr, sdrsp2_addr, sdrsp3_addr, sdhsts_addr, sdedm_addr, sdhbct_addr, sdhblc_addr,
  cmd_timeout_us,
}

-- The parameters.
pub record Command : Type 0 where
  pub cmd_idx : ℕ
  pub arg : ℕ
  pub resp_present : Bool
  pub resp_136 : Bool
  pub resp_busy : Bool
  pub data_blksz : ℕ
  pub data_blocks : ℕ
  pub is_read : Bool
  pub is_write : Bool
  pub allow_crc7_tolerance : Bool
  pub ignore_fail_flag : Bool

-- `struct cmd_result`: an `int` as its 32 bits, and four words.
pub record CmdResult : Type 0 where
  pub err : ℕ
  pub response : List ℕ

-- The bits of the `int` `-n`, for a positive `n`.
abbrev pub minus : ℕ → ℕ
minus n = 2 ^ 32 - n

abbrev pub failed : ℕ → CmdResult
failed err = record { err = err; response = 0 ∷ 0 ∷ 0 ∷ 0 ∷ [] }

abbrev pub succeeded : ℕ → ℕ → ℕ → ℕ → CmdResult
succeeded r0 r1 r2 r3 = record { err = 0; response = r0 ∷ r1 ∷ r2 ∷ r3 ∷ [] }

-- The word that is written to SDCMD.
unfoldable pub command_word : Command → ℕ
command_word c =
    let base = bit_and c.cmd_idx 0x3F in
    let long = if c.resp_136 then bit_or base 0x200 else base in
    let busy = if c.resp_busy then bit_or long 0x800 else long in
    let kind = if c.resp_present then busy else bit_or base 0x400 in
    let reading = if c.is_read then bit_or kind 0x40 else kind in
    let writing = if c.is_write then bit_or reading 0x80 else reading in bit_or writing 0x8000

-- `fsm == SDEDM_FSM_IDENTMODE || fsm == SDEDM_FSM_DATAMODE`
unfoldable pub is_idle : ℕ → Bool
is_idle edm = (bit_and edm 0xF == 0) || (bit_and edm 0xF == 1)

module _ (dev : Device) (fuel : ℕ) where
  -- One round of the loops that wait for NEW_FLAG to fall.
  unfoldable pub command_done : Io dev (Option ℕ)
  command_done = do
    sdcmd ← mmio_r dev sdcmd_addr
    pure (if bit_and sdcmd 0x8000 == 0 then some sdcmd else none)

  unfoldable pub clear_errors : Io dev (Unit {0})
  clear_errors = do
    sdhsts ← mmio_r dev sdhsts_addr
    if bit_and sdhsts 0xF8 == 0 then pure tt else mmio_w dev sdhsts_addr sdhsts

  unfoldable pub set_sizes : Command → Io dev (Unit {0})
  set_sizes c =
      if c.data_blksz == 0
      then pure tt
      else do mmio_w dev sdhbct_addr c.data_blksz; mmio_w dev sdhblc_addr c.data_blocks

  unfoldable pub read_long : Io dev CmdResult
  read_long = do
    r0 ← mmio_r dev sdrsp0_addr
    r1 ← mmio_r dev sdrsp1_addr
    r2 ← mmio_r dev sdrsp2_addr
    r3 ← mmio_r dev sdrsp3_addr
    pure (succeeded r3 r2 r1 r0)

  unfoldable pub read_short : Io dev CmdResult
  read_short = do r0 ← mmio_r dev sdrsp0_addr; pure (succeeded r0 0 0 0)

  unfoldable pub read_response : Command → Io dev CmdResult
  read_response c =
      if c.resp_present
      then (if c.resp_136 then read_long else read_short)
      else pure (succeeded 0 0 0 0)

  -- A line in the log, and the error.
  abbrev pub fail_with : Line → ℕ → Io dev CmdResult
  fail_with line n = do print dev line; pure (failed (minus n))

  -- The branch of `sdcmd & SDCMD_FAIL_FLAG`.
  unfoldable pub check_failure : Command → Io dev CmdResult
  check_failure c = do
    sdhsts ← mmio_r dev sdhsts_addr
    mmio_w dev sdhsts_addr 0xF8
    if (c.allow_crc7_tolerance && not (bit_and sdhsts 0x10 == 0)) || c.ignore_fail_flag
        then read_response c
        else fail_with (Line.fail_flag c.cmd_idx sdhsts) 2

  -- What follows the wait for the command's end; `none` is the timeout.
  unfoldable pub complete : Command → Option ℕ → Io dev CmdResult
  complete c none = fail_with (Line.never_completed c.cmd_idx) 1
  complete c (some sdcmd) = if bit_and sdcmd 0x4000 == 0 then read_response c else check_failure c

  -- What follows the wait for the previous command's end.
  unfoldable pub issue : Command → Option ℕ → Io dev CmdResult
  issue c none = fail_with (Line.previous_pending c.cmd_idx) 1
  issue c (some previous) = do
    clear_errors
    set_sizes c
    mmio_w dev sdarg_addr c.arg
    mmio_w dev sdcmd_addr (command_word c)
    got ← poll_for dev fuel cmd_timeout_us command_done
    complete c got

  -- What follows the check of the state machine.
  unfoldable pub start : Command → Io dev CmdResult
  start c = do got ← poll_for dev fuel cmd_timeout_us command_done; issue c got

  unfoldable pub send_cmd : Command → Io dev CmdResult
  send_cmd c = do
    edm ← mmio_r dev sdedm_addr
    if is_idle edm then start c else fail_with (Line.not_idle c.cmd_idx edm) 3
