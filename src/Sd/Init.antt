-- ===== src/Sd/Init.antt =====
-- `stage0_sd_init`: the controller's reset, the card's identification, and the clock for the data.
pub mod Quiet
pub mod Trace
pub mod Tries
pub mod Protocol
pub mod Divisor
use dhruvaos.Base.{
  ℕ, zero, suc, ◌+◌, ◌-◌, ◌*◌, ◌/◌, ◌^◌, min, bit_and, bit_or, Bool, true, false, not, Option, none,
  some, List, [], ◌∷◌, ltb, ◌==◌, if◌then◌else◌, u32,
}
use dhruvaos.Base.Action.{Action, pure, gets, modify, ◌>>=◌, ◌>>◌}
use dhruvaos.Sd.{
  Device, Driver, Io, mmio_r, mmio_w, udelay_real, sdtout_addr, sdcdiv_addr, sdvdd_addr, sdedm_addr,
  sdhcfg_addr, sdhbct_addr, sdhblc_addr, sddata_addr, gpfsel4_addr, gpfsel5_addr,
}
use dhruvaos.Sd.Command.{Command, CmdResult, minus, send_cmd}
use dhruvaos.Sd.Block.{fill_of}

-- A command without data: its index, its argument, and its flags in the order of the parameters.
abbrev pub control : ℕ → ℕ → Bool → Bool → Bool → Bool → Bool → Command
control cmd_idx arg resp_present resp_136 resp_busy allow_crc7_tolerance ignore_fail_flag = record {
  cmd_idx = cmd_idx;
  arg = arg;
  resp_present = resp_present;
  resp_136 = resp_136;
  resp_busy = resp_busy;
  data_blksz = 0;
  data_blocks = 0;
  is_read = false;
  is_write = false;
  allow_crc7_tolerance = allow_crc7_tolerance;
  ignore_fail_flag = ignore_fail_flag;
}

abbrev pub go_idle : Command
go_idle = control 0 0 false false false false false

abbrev pub send_if_cond : Command
send_if_cond = control 8 0x1AA true false false false true

abbrev pub app_cmd : Command
app_cmd = control 55 0 true false false false true

-- ACMD41, with `0x00FF8000u | OCR_HCS`.
abbrev pub send_op_cond : Command
send_op_cond = control 41 0x40FF8000 true false false true true

abbrev pub all_send_cid : Command
all_send_cid = control 2 0 true true false false false

abbrev pub send_relative_addr : Command
send_relative_addr = control 3 0 true false false false false

abbrev pub send_csd : ℕ → Command
send_csd rca = control 9 (u32 (rca * 2 ^ 16)) true true false false false

abbrev pub select_card : ℕ → Command
select_card rca = control 7 (u32 (rca * 2 ^ 16)) true false true false false

-- `r.response[0]`
unfoldable pub response_0 : CmdResult → ℕ
response_0 r = elim r.response [ [] ↦ 0 | w ∷ ws ↦ w ]

-- `div2`, the clock's divider, and `div4`, what the register holds for it.
unfoldable pub divider : ℕ → ℕ
divider core_clock_hz =
    let div0 = core_clock_hz / 1000000 in
    let div1 = if ltb div0 2 then 2 else div0 in
    if ltb 1000000 (core_clock_hz / div1) then div1 + 1 else div1

unfoldable pub data_divisor : ℕ → ℕ
data_divisor core_clock_hz =
    let div3 = divider core_clock_hz - 2 in if ltb 0x7FF div3 then 0x7FF else div3

module _ (dev : Device) (fuel : ℕ) where
  -- `while (fifo_preclear_iter < 1000)`, with `iters` rounds to go.
  unfoldable pub preclear : ℕ → Io dev (Unit {0})
  preclear zero = pure tt
  preclear (suc iters) =
      let again = preclear iters in
      do
        edm ← mmio_r dev sdedm_addr
        if fill_of edm == 0 then pure tt else (mmio_r dev sddata_addr >> again)

  -- The pins, and the thresholds of the FIFO.
  unfoldable pub set_pins : Io dev (Unit {0})
  set_pins = do
    r4 ← mmio_r dev gpfsel4_addr
    mmio_w dev gpfsel4_addr (bit_or (bit_and r4 0xC0FFFFFF) 0x24000000)
    r5 ← mmio_r dev gpfsel5_addr
    mmio_w dev gpfsel5_addr (bit_or (bit_and r5 0xFFFFF000) 0x924)
    temp ← mmio_r dev sdedm_addr
    mmio_w dev sdedm_addr (
        bit_or (bit_and temp (2 ^ 32 - 1 - (0x1F * 2 ^ 14 + 0x1F * 2 ^ 9)))
          (4 * 2 ^ 14 + 4 * 2 ^ 9))

  unfoldable pub cycle_power : Io dev (Unit {0})
  cycle_power = do
    udelay_real dev fuel 20000
    mmio_w dev sdvdd_addr 0
    udelay_real dev fuel 20000
    mmio_w dev sdvdd_addr 1
    udelay_real dev fuel 20000

  unfoldable pub reset_and_ident_clock : Io dev (Unit {0})
  reset_and_ident_clock = do
    set_pins
    cycle_power
    preclear 1000
    mmio_w dev sdcdiv_addr 0x148
    mmio_w dev sdtout_addr 0xF00000
    mmio_w dev sdhbct_addr 0
    mmio_w dev sdhblc_addr 0
    mmio_w dev sdhcfg_addr 0

  -- The stores to `mbox_buf`.
  unfoldable pub store_words : ℕ → List ℕ → Io dev (Unit {0})
  store_words addr [] = pure tt
  store_words addr (w ∷ ws) = do
    modify (λ d. record d { hardware = dev.write addr w d.hardware })
    store_words (addr + 4) ws

  -- The address with channel 8, the property tags.
  abbrev pub message : ℕ
  message = bit_or (bit_and dev.mailbox (2 ^ 32 - 1 - 0xF)) 8

  -- Whether MBOX_FULL falls within `polls` polls.
  unfoldable pub wait_room : ℕ → Io dev Bool
  wait_room zero = pure false
  wait_room (suc polls) =
      let again = wait_room polls in
      do status ← mmio_r dev 0x2000B898; if bit_and status 0x80000000 == 0 then pure true else again

  -- `mbox_buf[1] == 0x80000000u`, and `mbox_buf[6]`.
  unfoldable pub reply_rate : Io dev ℕ
  reply_rate = do
    (code, rate) ← gets (λ d. dev.reply d.hardware)
    pure (if code == 0x80000000 then u32 rate else 0)

  unfoldable pub wait_reply : ℕ → Io dev ℕ
  wait_reply zero = pure 0
  wait_reply (suc polls) =
      let again = wait_reply polls in
      let take_message =
        (mmio_r dev 0x2000B880 >>= λ got. if got == message then reply_rate else again) in
      do
        status ← mmio_r dev 0x2000B898
        if bit_and status 0x40000000 == 0 then take_message else again

  unfoldable pub ask_rate : Bool → Io dev ℕ
  ask_rate room = if room then (mmio_w dev 0x2000B8A0 message >> wait_reply 100000) else pure 0

  unfoldable pub get_core_clock_hz : Io dev ℕ
  get_core_clock_hz = do
    store_words dev.mailbox (32 ∷ 0 ∷ 0x30002 ∷ 8 ∷ 0 ∷ 4 ∷ 0 ∷ 0 ∷ [])
    room ← wait_room 100000
    ask_rate room

  unfoldable pub set_data_clock : ℕ → Io dev (Unit {0})
  set_data_clock core_clock_hz = if core_clock_hz == 0 then pure tt else do
    mmio_w dev sdcdiv_addr (data_divisor core_clock_hz)
    mmio_w dev sdtout_addr (core_clock_hz / (data_divisor core_clock_hz + 2) / 2)
    udelay_real dev fuel 10000

  -- A command, and `if (r.err != 0) return -code;`.
  abbrev pub checked : {A : Type 0} → Command → A → (CmdResult → Io dev A) → Io dev A
  checked c bad next = do r ← send_cmd dev fuel c; if r.err == 0 then next r else pure bad

  -- CMD55 and ACMD41; `none` is the return of -3.
  unfoldable pub op_cond : Io dev (Option CmdResult)
  op_cond = checked app_cmd none λ r. checked send_op_cond none λ r'. pure (some r')

  unfoldable pub unless_ready :
      Io dev (Option CmdResult) → Option CmdResult → Io dev (Option CmdResult)
  unless_ready again none = pure none
  unless_ready again (some r) =
      if bit_and (response_0 r) 0x80000000 == 0
      then (udelay_real dev fuel 1000 >> again)
      else pure (some r)

  -- The loop over CMD55 and ACMD41, for the values of `retry`.
  unfoldable pub power_up : ℕ → Io dev (Option CmdResult)
  power_up zero = op_cond
  power_up (suc retry) = let again = power_up retry in do got ← op_cond; unless_ready again got

  -- From CMD9 on.
  unfoldable pub select : ℕ → Io dev ℕ
  select rca = checked (send_csd rca) (minus 6) λ r. checked (select_card rca) (minus 7) λ r'. do
    core_clock_hz ← get_core_clock_hz
    set_data_clock core_clock_hz
    mmio_w dev sdhcfg_addr 0x40A
    pure 0

  -- From CMD2 on.
  unfoldable pub identify : Io dev ℕ
  identify = checked all_send_cid (minus 4) λ r. checked send_relative_addr (minus 5) λ r'.
      let rca = bit_and (response_0 r' / 2 ^ 16) 0xFFFF in
      do modify (λ d. record d { rca = rca }); select rca

  -- What follows the loop.
  unfoldable pub powered : Option CmdResult → Io dev ℕ
  powered none = pure (minus 3)
  powered (some r) = do
    modify (λ d. record d { is_sdhc = not (bit_and (response_0 r) 0x40000000 == 0) })
    identify

  unfoldable pub sd_init : Io dev ℕ
  sd_init = do
    reset_and_ident_clock
    checked go_idle (minus 1)
        λ r. checked send_if_cond (minus 2) λ r'. do got ← power_up 1000; powered got
