-- ===== src/Tests/Polling.antt =====
-- Tests of what is sent to the UART.
use dhruvaos.Base.{
  ℕ, ◌+◌, ◌-◌, ◌*◌, ◌/◌, ◌%◌, ◌^◌, ◌<◌, ◌≡◌, refl, arith, List, [], ◌∷◌, ◌++◌, get_or,
  if◌then◌else◌, ◌==◌, Bool-cases, inl, inr, true, false, some, All, Bool, not, ◌&&◌, ltb,
}
use mathlib.Core.Bool.{false≢true}
use dhruvaos.Base.Action.{◌>>=◌, pure, Ensures}
use dhruvaos.Boot.Run.{stage0_main}
use dhruvaos.Boot.Watchdog.{pm_wdog, pm_rstc, stage0_arm_watchdog, stage0_arm_watchdog-Ensures}
use dhruvaos.Sd.Hex.{u_hex32}
use dhruvaos.Heap.{Allocator}
use dhruvaos.Heap.Step.{Request, call}
use dhruvaos.Rpi4.{AllocatorRpi4}
use dhruvaos.Rpi4.Placed.{call_rpi4}
use dhruvaos.Console.{
  Arg, put_unsigned, collect, print_back, dprintf, format, directive, put_number, skip_l,
}
use dhruvaos.Console
use dhruvaos.Console.Format.{IsPlain}
use dhruvaos.Uart.{
  port_rpi1, port_rpi4, codes, literal, putc_on, wait_room, read_register, write_register,
}
use dhruvaos.Uart.Prints.{Prints, Drains, HoldsString, literal-HoldsString, not_zero}
use dhruvaos.Uart.Printf.{dprintf_on}
use dhruvaos.Uart.Refine.{dprintf_on-Prints}
use dhruvaos.Uart.Traps.{trap_messages-Prints}
use dhruvaos.Uart.Refused.{IsReported, IsReportedRpi4, calls-IsReported}
use dhruvaos.Uart.Boots.{IsShown, stage0_main-IsShown}
use dhruvaos.Tests.{test_sd, stack_ctx}
use dhruvaos.Uart.Halt.{exit, stage0_fault_uart, halts-Prints}

-- A UART that is full at every second read.
abbrev busy : ℕ → ℕ → ℕ
busy addr n = if n % 2 == 0 then 0xB0 else 0x90

busy-Drains : (fr limit : ℕ) → 2 < limit → Drains busy fr limit
busy-Drains fr limit h n = elim (Bool-cases (n % 2 == 0)) [
  | inl e ↦ let odd : ((n + 1) % 2 == 0) ≡ false = ground arith in (1, omega arith, rw odd)
  | inr e ↦ let same : ((n + 0) % 2 == 0) ≡ false = ground arith in (0, omega arith, rw same)
]

-- Two polls and a write.
sent_byte :
    putc_on port_rpi4 busy 5 65 (record { reads = 0; writes = [] })
    ≡ some (tt, record { reads = 2; writes = (0xFE201000, 65) ∷ [] })
unfolding putc_on wait_room read_register write_register ◌>>=◌ pure
sent_byte = refl

-- A format and a message in memory.
abbrev number_format : List ℕ
number_format = codes "x=%lld!"

number_text : dprintf number_format (Arg.number 42 ∷ []) ≡ some (codes "x=42!")
unfolding dprintf format directive put_number skip_l Console.put_i64 put_unsigned collect print_back
number_text = refl

dprintf_on-Prints_example :
    Prints port_rpi1.dr
      (dprintf_on port_rpi1 busy 20 (literal "x=%lld!") 8 0 (42 ∷ []))
      (codes "x=42!")
dprintf_on-Prints_example =
    dprintf_on-Prints port_rpi1 busy 20 (literal "x=%lld!") number_format (Arg.number 42 ∷ []) 0
      (42 ∷ []) (codes "x=42!") (busy-Drains port_rpi1.fr 20 (omega arith))
      (literal-HoldsString number_format refl) (omega arith) (refl, tt) number_text

-- Three texts, one behind another.
abbrev fixed : List ℕ
fixed = codes "bad shift\n"

abbrev asserted : List ℕ
asserted = codes "assertion failed: "

abbrev reason : List ℕ
reason = codes "no room"

abbrev three_texts : ℕ → ℕ
three_texts a = get_or (fixed ++ 0 ∷ (asserted ++ 37 ∷ 115 ∷ 10 ∷ 0 ∷ (reason ++ 0 ∷ []))) a 0

abbrev holds : (ℕ → ℕ) → ℕ → List ℕ → Bool
holds memory s [] = memory s == 0
holds memory s (c ∷ cs) =
    (memory s == c) && (not (c == 0) && (ltb c 256 && holds memory (s + 1) cs))

holds_sound :
    (memory : ℕ → ℕ) (s : ℕ) (text : List ℕ)
    → holds memory s text ≡ true
    → HoldsString memory s text
holds_sound memory s [] h = ground arith
holds_sound memory s (c ∷ cs) h =
    let here : memory s ≡ c = ground arith in
    let nonzero : not (c == 0) ≡ true = ground arith in
    let byte : ltb c 256 ≡ true = ground arith in
    let rest : holds memory (s + 1) cs ≡ true = ground arith in
    (here, not_zero c nonzero, ground arith, holds_sound memory (s + 1) cs rest)

abbrev is_plain : List ℕ → Bool
is_plain [] = true
is_plain (c ∷ cs) = not (c == 37) && is_plain cs

is_plain-IsPlain : (text : List ℕ) → is_plain text ≡ true → All IsPlain text
is_plain-IsPlain [] h = tt
is_plain-IsPlain (c ∷ cs) h =
    let plain : not (c == 37) ≡ true = ground arith in
    let rest : is_plain cs ≡ true = ground arith in
    (λ e. false≢true (rw e at plain), is_plain-IsPlain cs rest)

trap_messages-Prints_example :
    Prints port_rpi4.dr (dprintf_on port_rpi4 busy 40 three_texts 11 0 []) fixed
    × Prints port_rpi4.dr
        (dprintf_on port_rpi4 busy 40 three_texts 22 11 (33 ∷ []))
        (asserted ++ (reason ++ 10 ∷ []))
trap_messages-Prints_example =
    trap_messages-Prints port_rpi4 busy 40 three_texts fixed asserted (10 ∷ []) reason 0 11 33
      (busy-Drains port_rpi4.fr 40 (omega arith)) (is_plain-IsPlain fixed refl)
      (is_plain-IsPlain asserted refl) (omega arith, tt) (holds_sound three_texts 0 fixed refl)
      (holds_sound three_texts 11 (asserted ++ 37 ∷ 115 ∷ 10 ∷ []) refl)
      (holds_sound three_texts 33 reason refl) (omega arith) (omega arith) (omega arith)

abbrev small_heap : Allocator
small_heap = record {
  used = 786000;
  count = 12;
  countdown = 0;
  irq_masked = false;
  guards = [];
  memory = λ a. 7;
}

abbrev small_heap_rpi4 : AllocatorRpi4
small_heap_rpi4 = record {
  used = 786000;
  count = 12;
  irq_masked = false;
  guards = [];
  memory = λ a. 7;
}

-- 786000 + 512 bytes do not fit either heap.
calls-IsReported_example :
    IsReported busy 300
      (Request.buffer 512)
      small_heap
      (call 0x90010 (Request.buffer 512) small_heap)
    × IsReportedRpi4 busy 300
        (Request.buffer 512)
        small_heap_rpi4
        (call_rpi4 0x90010 (Request.buffer 512) small_heap_rpi4)
calls-IsReported_example =
    calls-IsReported busy 300 0x90010 (Request.buffer 512) small_heap small_heap_rpi4 (omega arith)
      (busy-Drains port_rpi1.fr 300 (omega arith)) (busy-Drains port_rpi4.fr 300 (omega arith))
      (omega arith) (omega arith) (omega arith)

-- The return address 0x00206EC8 of a trap.
halts-Prints_example :
    Prints port_rpi1.dr
      (exit busy 40 (λ a. 0x206EC8) 0x8000)
      (codes "panic caller LR=0x" ++ (u_hex32 0x206EC8 ++ 10 ∷ []))
    × Prints port_rpi1.dr
        (stage0_fault_uart busy 40 3)
        (codes "\nstage0: FATAL, halting (code=0x" ++ (u_hex32 3 ++ codes ")\n"))
halts-Prints_example =
    halts-Prints busy 40 (λ a. 0x206EC8) 0x8000 3 (busy-Drains port_rpi1.fr 40 (omega arith))
      (omega arith)

stage0_main-IsShown_example :
    IsShown busy 100 test_sd (stage0_main test_sd stack_ctx (record { card = []; console = [] }))
stage0_main-IsShown_example =
    stage0_main-IsShown busy 100 test_sd stack_ctx (record { card = []; console = [] })
      (omega arith) (busy-Drains port_rpi1.fr 100 (omega arith)) refl

-- The reset register reads 0x102.
stage0_arm_watchdog-Ensures_example :
    Ensures
      (λ a u'.
        u'.writes
        ≡ ([] ++ (pm_wdog, 0x5A * 2 ^ 24 + 15 * 2 ^ 16) ∷ [])
          ++ (pm_rstc, 0x5A * 2 ^ 24 + (0x102 - 0x102 / 16 % 4 * 16) + 32) ∷ [])
      (stage0_arm_watchdog (λ addr n. 0x102) (record { reads = 0; writes = [] }))
stage0_arm_watchdog-Ensures_example =
    stage0_arm_watchdog-Ensures (λ addr n. 0x102) (record { reads = 0; writes = [] }) (omega arith)
