-- ===== src/Tests/Card.antt =====
-- Tests of the SD driver, over a card that answers every command at once.
use dhruvaos.Base.{
  All, ℕ, ◌+◌, ◌*◌, ◌/◌, ◌^◌, ◌<◌, ◌≤◌, ◌≡◌, refl, ◌⊎◌, Bool, true, false, Option, none, some, List,
  [], ◌∷◌, bit_and, ◌==◌, if◌then◌else◌, length, drop, min, replicate, arith, get_or,
}
use dhruvaos.Base.Action.{Ensures, Ensures-pure, pure, gets, modify, ◌>>=◌, diverge}
use dhruvaos.Slot.{build_slot_state}
use dhruvaos.Boot.Started.{IsStarted, stage0_main-IsStarted}
use dhruvaos.Sd.Card.Bytes.{sd_card-GivesBytes}
use dhruvaos.Boot.Run.{World, load_blocks, stage0_main}
use dhruvaos.Sd.{
  Device, Driver, mmio_r, mmio_w, elapsed_at_least, unless_late, poll, poll_for, udelay_real,
  sdcmd_addr, sdarg_addr, sdrsp0_addr, sdedm_addr, sddata_addr, timer_clo_addr, timeout_us,
}
use dhruvaos.Sd.Access.{IsTimed, Moved, Moved-refl}
use dhruvaos.Sd.Poll.{Found, BodyDone, poll_for-Ensures, udelay_real-Ensures}
use dhruvaos.Sd.Command.{
  command_word, is_idle, command_done, clear_errors, set_sizes, read_long, read_short,
  read_response, check_failure, complete, issue, start, send_cmd,
}
use dhruvaos.Sd.Command.Sends.{IsSent, send_cmd-IsSent}
use dhruvaos.Sd.Block.{
  card_addr, fill_of, unforced, is_wedged, transfer_done, check_errors, wait_idle, end_transfer,
  read_words, write_words, fifo_round, receive, transmit, drain, received, read_data, sd_read_block,
  read_single, finish_write, write_data, sd_write_block,
}
use dhruvaos.Sd.Block.Reads.{IsRead, sd_read_block-IsRead}
use dhruvaos.Sd.Block.Writes.{IsWritten, sd_write_block-IsWritten}
use dhruvaos.Sd.Init.{
  response_0, divider, data_divisor, preclear, set_pins, cycle_power, reset_and_ident_clock,
  store_words, wait_room, reply_rate, wait_reply, ask_rate, get_core_clock_hz, set_data_clock,
  op_cond, unless_ready, power_up, select, identify, powered, sd_init,
}
use dhruvaos.Sd.Init.Trace.{IsDone, IsInitialised, IsBrokenOff}
use dhruvaos.Sd.Init.Protocol.{sd_init-IsInitialised}
use dhruvaos.Sd.Init.Divisor.{data_divisor_lem}
use dhruvaos.Sd.Hex.{u_hex32, IsHexDigit, hex_value, u_hex32_lem}
use dhruvaos.Sd.Card.{words_of, sd_card}
use dhruvaos.Sd.Card.Loads.{IsLoadedFrom, load_blocks-IsLoadedFrom}
use dhruvaos.Sd.Card.Boots.{IsTraced, stage0_main-IsTraced}
use dhruvaos.Tests.{stack_ctx, slot_state, payload}

-- The time, the argument of the last command, and the words that are still to be read.
record Bus : Type 0 where
  nanoseconds : ℕ
  argument : ℕ
  fifo : List ℕ

module _ (contents : ℕ → List ℕ) where
  -- A card that is block-addressed, at 0xC0FF, behind a controller that is idle.
  abbrev answer : ℕ → Bus → ℕ
  answer addr h =
      if addr == timer_clo_addr
      then h.nanoseconds / 1000
      else if addr == sddata_addr
      then get_or h.fifo 0 0
      else if addr == sdedm_addr
      then min 8 (length h.fifo) * 2 ^ 4 + 1
      else if addr == sdrsp0_addr
      then 0xC0FF8000
      else if addr == 0x2000B880
      then 0x1008
      else 0

  -- A load takes 10 milliseconds.
  abbrev after_answer : ℕ → Bus → Bus
  after_answer addr h = record h {
    nanoseconds = h.nanoseconds + 10 ^ 7;
    fifo = if addr == sddata_addr then drop 1 h.fifo else h.fifo;
  }

  abbrev obey : ℕ → ℕ → Bus → Bus
  obey addr v h =
      if addr == sdarg_addr
      then record h { argument = v }
      else if addr == sdcmd_addr
      then (if bit_and v 0x40 == 0 then h else record h { fifo = contents h.argument })
      else h

  abbrev simulated : Device
  simulated = record {
    Hardware = Bus;
    read = λ addr h. (answer addr h, after_answer addr h);
    write = obey;
    mailbox = 0x1000;
    reply = λ h. (0x80000000, 250000000);
  }

  abbrev simulated-IsTimed : IsTimed simulated
  simulated-IsTimed = record {
    clock = λ h. h.nanoseconds;
    read_later = λ addr h. omega arith;
    read_soon = λ addr h. omega arith;
    timer = λ h. refl;
  }

abbrev started : Driver Bus
started = record {
  hardware = record { nanoseconds = 0; argument = 0; fifo = 5 ∷ 6 ∷ [] };
  rca = 0;
  is_sdhc = false;
  lines = [];
  transfers = [];
}

-- With nothing in the FIFO.
abbrev drained : Driver Bus
drained = record started { hardware = record { nanoseconds = 0; argument = 0; fifo = [] } }

abbrev sevens : ℕ → List ℕ
sevens n = replicate 128 7

-- The divisor of a core clock of 250 MHz.
divisor_250 : data_divisor 250000000 ≡ 248
unfolding data_divisor divider
divisor_250 = refl

abbrev value : {A S : Type 0} → Option (A × S) → Option A
value none = none
value (some (a, s)) = some a

-- A whole initialization: the result, and the address and the kind of the card.
abbrev kind : Option (ℕ × Driver Bus) → Option (ℕ × (ℕ × Bool))
kind none = none
kind (some (r, s)) = some (r, (s.rca, s.is_sdhc))

initialised : kind (sd_init (simulated sevens) 10 started) ≡ some (0, (0xC0FF, true))
unfolding mmio_r mmio_w elapsed_at_least unless_late poll poll_for udelay_real ◌>>=◌ pure gets
    modify diverge command_word is_idle command_done clear_errors set_sizes read_long read_short
    read_response check_failure complete issue start send_cmd response_0 divider data_divisor
    preclear set_pins cycle_power reset_and_ident_clock store_words wait_room reply_rate wait_reply
    ask_rate get_core_clock_hz set_data_clock op_cond unless_ready power_up select identify powered
    sd_init fill_of
initialised = refl

-- A block that is read.
block_read : value (sd_read_block (simulated sevens) 10 5 started) ≡ some (some (replicate 128 7))
unfolding mmio_r mmio_w elapsed_at_least unless_late poll poll_for ◌>>=◌ pure gets modify diverge
    command_word is_idle command_done clear_errors set_sizes read_long read_short read_response
    check_failure complete issue start send_cmd card_addr fill_of unforced is_wedged transfer_done
    check_errors wait_idle end_transfer read_words fifo_round receive received read_data
    sd_read_block
block_read = refl

-- A block that is written.
block_written : value (sd_write_block (simulated sevens) 10 5 (replicate 128 3) drained) ≡ some true
unfolding mmio_r mmio_w elapsed_at_least unless_late poll poll_for ◌>>=◌ pure gets modify diverge
    command_word is_idle command_done clear_errors set_sizes read_long read_short read_response
    check_failure complete issue start send_cmd card_addr fill_of unforced is_wedged transfer_done
    check_errors wait_idle end_transfer write_words fifo_round transmit drain finish_write
    write_data sd_write_block
block_written = refl

-- A card with a record in block 9216, and the payload in the others.
abbrev bootable : ℕ → List ℕ
bootable n = if n == 9216 then words_of 128 (build_slot_state slot_state) else words_of 128 payload

abbrev dev : Device
dev = simulated bootable

abbrev timed : IsTimed dev
timed = simulated-IsTimed bootable

abbrev fuel : ℕ
fuel = 1073741824

enough : 10 ^ 9 ≤ fuel
enough = omega arith

abbrev world : World (sd_card dev timed fuel enough)
world = record { card = started; console = [] }

stage0_main-IsTraced_example :
    IsTraced dev timed fuel enough stack_ctx started
      (stage0_main (sd_card dev timed fuel enough) stack_ctx world)
stage0_main-IsTraced_example = stage0_main-IsTraced dev timed fuel enough stack_ctx world

stage0_main-IsStarted_example :
    IsStarted
      (sd_card dev timed fuel enough)
      (stage0_main (sd_card dev timed fuel enough) stack_ctx world)
stage0_main-IsStarted_example =
    stage0_main-IsStarted (sd_card dev timed fuel enough) stack_ctx world
      (sd_card-GivesBytes dev timed fuel enough) refl

sd_init-IsInitialised_example :
    Ensures (IsDone (IsInitialised started) (IsBrokenOff started)) (sd_init dev fuel started)
sd_init-IsInitialised_example = sd_init-IsInitialised dev timed fuel enough started

sd_read_block-IsRead_example : Ensures (IsRead 9216 started) (sd_read_block dev fuel 9216 started)
sd_read_block-IsRead_example = sd_read_block-IsRead dev timed fuel enough 9216 started

sd_write_block-IsWritten_example :
    Ensures
      (IsWritten 9217 (replicate 128 3) started)
      (sd_write_block dev fuel 9217 (replicate 128 3) started)
sd_write_block-IsWritten_example =
    sd_write_block-IsWritten dev timed fuel enough 9217 (replicate 128 3) started refl

send_cmd-IsSent_example :
    Ensures (IsSent (read_single 5) started) (send_cmd dev fuel (read_single 5) started)
send_cmd-IsSent_example = send_cmd-IsSent dev timed fuel enough (read_single 5) started

load_blocks-IsLoadedFrom_example :
    IsLoadedFrom dev timed fuel enough
      (9218 + 0)
      []
      started
      (load_blocks (sd_card dev timed fuel enough) 9218 3 0 world [])
load_blocks-IsLoadedFrom_example = load_blocks-IsLoadedFrom dev timed fuel enough 9218 3 0 world []

-- A loop that waits for the time only.
never-BodyDone : (s : Driver Bus) → Ensures (BodyDone dev timed (λ (n : ℕ). n ≡ 3) s) (pure none s)
never-BodyDone s = Ensures-pure none s (Moved-refl s, omega arith, omega arith)

poll_for-Ensures_example :
    Ensures
      (λ o t. Moved [] started t × Found dev timed (λ (n : ℕ). n ≡ 3) 0 timeout_us o t)
      (poll_for dev fuel timeout_us (pure none) started)
poll_for-Ensures_example =
    poll_for-Ensures dev timed (λ (n : ℕ). n ≡ 3) (pure none) fuel timeout_us started never-BodyDone
      (omega arith) (omega arith) (omega arith)

udelay_real-Ensures_example :
    Ensures
      (λ u t. Moved [] started t × (0 / 1000 + 20000 ≤ t.hardware.nanoseconds / 1000))
      (udelay_real dev fuel 20000 started)
udelay_real-Ensures_example =
    udelay_real-Ensures dev timed fuel 20000 started (omega arith) (omega arith) (omega arith)

data_divisor_lem_example :
    (data_divisor 250000000 ≤ 0x7FF)
    × ((250000000 / (data_divisor 250000000 + 2) ≤ 1000000) ⊎ (data_divisor 250000000 ≡ 0x7FF))
    × ((data_divisor 250000000 ≡ 0) ⊎ (1000000 < 250000000 / (data_divisor 250000000 + 1)))
data_divisor_lem_example = data_divisor_lem 250000000 (omega arith)

u_hex32_lem_example :
    (length (u_hex32 0xDEAD0006) ≡ 8)
    × All IsHexDigit (u_hex32 0xDEAD0006)
    × (hex_value (u_hex32 0xDEAD0006) ≡ 0xDEAD0006)
u_hex32_lem_example = u_hex32_lem 0xDEAD0006 (omega arith)
