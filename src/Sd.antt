-- ===== src/Sd.antt =====
-- The SD card driver boot/stage0/sdread.c, over a device of memory-mapped registers.
pub mod Access
pub mod Poll
pub mod Command
pub mod Block
pub mod Init
pub mod Card
pub mod Hex
use dhruvaos.Base.{
  ℕ, zero, suc, ◌+◌, ◌*◌, ◌^◌, bit_and, Bool, true, false, Option, none, some, List, [], ◌∷◌, ◌++◌,
  leb, ◌==◌, if◌then◌else◌, u32, sub_u32,
}
use dhruvaos.Base.Action.{Action, pure, diverge, gets, modify, ◌>>=◌, ◌>>◌}

-- The hardware: what a load from an address returns and does, and what a store does. `mailbox` is
-- the address of `mbox_buf`, and `reply` what the VideoCore has left in its words 1 and 6.
pub record Device : Type 1 where
  pub Hardware : Type 0
  pub read : ℕ → Hardware → ℕ × Hardware
  pub write : ℕ → ℕ → Hardware → Hardware
  pub mailbox : ℕ
  pub reply : Hardware → ℕ × ℕ

-- What passes between the driver and the card: the stores to SDARG, SDHBCT, SDHBLC and SDCMD, and
-- the words of the data register.
pub data Transfer : Type 0 where
  argument : ℕ → Transfer
  byte_count : ℕ → Transfer
  block_count : ℕ → Transfer
  command : ℕ → Transfer
  data_in : ℕ → Transfer
  data_out : ℕ → Transfer

-- The lines of `stage0_send_cmd` on the UART, with the numbers that they show.
pub data Line : Type 0 where
  not_idle : (cmd_idx edm : ℕ) → Line
  previous_pending : (cmd_idx : ℕ) → Line
  never_completed : (cmd_idx : ℕ) → Line
  fail_flag : (cmd_idx sdhsts : ℕ) → Line

-- The hardware, `s_rca` and `s_is_sdhc`, the lines, and, for the record, the transfers so far.
pub record Driver (Hardware : Type 0) : Type 0 where
  pub hardware : Hardware
  pub rca : ℕ
  pub is_sdhc : Bool
  pub lines : List Line
  pub transfers : List Transfer

abbrev pub sdcmd_addr : ℕ
sdcmd_addr = 0x20202000

abbrev pub sdarg_addr : ℕ
sdarg_addr = 0x20202004

abbrev pub sdtout_addr : ℕ
sdtout_addr = 0x20202008

abbrev pub sdcdiv_addr : ℕ
sdcdiv_addr = 0x2020200C

abbrev pub sdrsp0_addr : ℕ
sdrsp0_addr = 0x20202010

abbrev pub sdrsp1_addr : ℕ
sdrsp1_addr = 0x20202014

abbrev pub sdrsp2_addr : ℕ
sdrsp2_addr = 0x20202018

abbrev pub sdrsp3_addr : ℕ
sdrsp3_addr = 0x2020201C

abbrev pub sdhsts_addr : ℕ
sdhsts_addr = 0x20202020

abbrev pub sdvdd_addr : ℕ
sdvdd_addr = 0x20202030

abbrev pub sdedm_addr : ℕ
sdedm_addr = 0x20202034

abbrev pub sdhcfg_addr : ℕ
sdhcfg_addr = 0x20202038

abbrev pub sdhbct_addr : ℕ
sdhbct_addr = 0x2020203C

abbrev pub sdhblc_addr : ℕ
sdhblc_addr = 0x20202050

abbrev pub sddata_addr : ℕ
sddata_addr = 0x20202040

abbrev pub timer_clo_addr : ℕ
timer_clo_addr = 0x20003004

abbrev pub gpfsel4_addr : ℕ
gpfsel4_addr = 0x20200010

abbrev pub gpfsel5_addr : ℕ
gpfsel5_addr = 0x20200014

abbrev pub timeout_us : ℕ
timeout_us = 1000000

abbrev pub cmd_timeout_us : ℕ
cmd_timeout_us = 100000

-- The transfers that a load or a store adds.
abbrev pub loaded : ℕ → ℕ → List Transfer
loaded addr v = if addr == sddata_addr then Transfer.data_in v ∷ [] else []

abbrev pub stored : ℕ → ℕ → List Transfer
stored addr v =
    if addr == sdarg_addr
    then Transfer.argument v ∷ []
    else if addr == sdcmd_addr
    then Transfer.command v ∷ []
    else if addr == sdhbct_addr
    then Transfer.byte_count v ∷ []
    else if addr == sdhblc_addr
    then Transfer.block_count v ∷ []
    else if addr == sddata_addr
    then Transfer.data_out v ∷ []
    else []

module _ (dev : Device) where
  open dev use {Hardware, read, write}

  abbrev pub Io : Type 0 → Type 0
  Io A = Action (Driver Hardware) A

  -- `mmio_r` and `mmio_w`, without their barriers.
  unfoldable pub mmio_r : ℕ → Io ℕ
  mmio_r addr = do
    (v, hardware) ← gets (λ d. read addr d.hardware)
    modify (λ d. record d { hardware = hardware; transfers = d.transfers ++ loaded addr (u32 v) })
    pure (u32 v)

  unfoldable pub mmio_w : ℕ → ℕ → Io (Unit {0})
  mmio_w addr v =
      modify λ d. record d {
        hardware = write addr v d.hardware;
        transfers = d.transfers ++ stored addr v;
      }

  abbrev pub now_us : Io ℕ
  now_us = mmio_r timer_clo_addr

  unfoldable pub elapsed_at_least : ℕ → ℕ → Io Bool
  elapsed_at_least t0 budget_us = do t ← now_us; pure (leb budget_us (sub_u32 t t0))

  -- The end of a round of a loop that watches the timer.
  unfoldable pub unless_late : {A : Type 0} → ℕ → ℕ → Io (Option A) → Option A → Io (Option A)
  unless_late t0 budget_us again (some a) = pure (some a)
  unless_late t0 budget_us again none = do
    late ← elapsed_at_least t0 budget_us
    if late then pure none else again

  -- `for (;;) { … if (elapsed_at_least(t0, budget_us)) … }`, on fuel: `body` returns what the loop is
  -- left with, and `none` is returned when the time is over.
  unfoldable pub poll : {A : Type 0} → ℕ → ℕ → ℕ → Io (Option A) → Io (Option A)
  poll zero t0 budget_us body = diverge
  poll (suc fuel) t0 budget_us body =
      let again = poll fuel t0 budget_us body in do got ← body; unless_late t0 budget_us again got

  -- `t0 = now_us(); for (;;) { … }`
  unfoldable pub poll_for : {A : Type 0} → ℕ → ℕ → Io (Option A) → Io (Option A)
  poll_for fuel budget_us body = do t0 ← now_us; poll fuel t0 budget_us body

  -- `udelay_real`: a loop that waits for nothing but the time.
  unfoldable pub udelay_real : ℕ → ℕ → Io (Unit {0})
  udelay_real fuel us = do poll_for {A = Unit {0}} fuel us (pure none); pure tt

  -- `u_puts` and `u_hex32` add to a log here; that the UART takes them is in Uart.
  abbrev pub print : Line → Io (Unit {0})
  print line = modify λ d. record d { lines = d.lines ++ line ∷ [] }
