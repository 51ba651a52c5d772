-- ===== src/Uart/Console.antt =====
-- The lines of `stage0_main` (boot/stage0/stage0_main.c), as the calls of `u_puts`, `u_hex32` and
-- `u_putc` that print them.
use Prim.Native.String.{String}
use dhruvaos.Base.{
  ℕ, ◌<◌, ◌≤◌, ◌≡◌, refl, arith, List, [], ◌∷◌, ◌++◌, append_assoc, ap, sym, ◌∙◌, length, true,
  IsByte, All, if◌then◌else◌, ◌==◌,
}
use dhruvaos.Base.Action.{Action, pure, ◌>>◌}
use dhruvaos.Boot.{slot_state_block_a, slot_state_block_b}
use dhruvaos.Boot.Run.{Message}
use dhruvaos.Sd.Hex.{u_hex32}
use dhruvaos.Uart.{Bus, port_rpi1, u_putc, put_hex, codes}
use dhruvaos.Uart.Numbers.{put_hex-Prints}
use dhruvaos.Uart.Prints.{Prints, Prints-pure, Prints-then, Drains, putc_on-Prints, is_text}
use dhruvaos.Uart.Report.{say, say-Prints}

-- A call of `u_puts`, `u_hex32` or `u_putc`.
pub data Call : Type 0 where
  text : String → Call
  hex : ℕ → Call
  char : ℕ → Call

-- `slot == 0 ? 'A' : 'B'`
abbrev slot_letter : ℕ → ℕ
slot_letter slot = if slot == 0 then 65 else 66

-- The calls for each line of `stage0_main`.
unfoldable pub calls_of : Message → List Call
calls_of Message.starting = Call.text "\nstage0: A/B kernel-slot loader starting\n" ∷ []
calls_of (Message.init_failed rc) =
    Call.text "stage0: SD init failed, stage=" ∷ Call.hex rc ∷ Call.text "\n" ∷ []
calls_of Message.no_record =
    Call.text "stage0: no valid slot-state record found (blocks "
    ∷ Call.hex slot_state_block_a
    ∷ Call.text "/"
    ∷ Call.hex slot_state_block_b
    ∷ Call.text ") -- fresh/corrupt card, nothing to boot\n"
    ∷ []
calls_of (Message.attempt slot count limit) =
    Call.text "stage0: active_slot="
    ∷ Call.char (slot_letter slot)
    ∷ Call.text " attempt_count="
    ∷ Call.hex count
    ∷ Call.text " bootlimit="
    ∷ Call.hex limit
    ∷ Call.text "\n"
    ∷ []
calls_of (Message.falling_back slot) =
    Call.text "stage0: bootlimit exceeded, falling back to slot "
    ∷ Call.char (slot_letter slot)
    ∷ Call.text "\n"
    ∷ []
calls_of Message.not_ready =
    Call.text "stage0: bootlimit exceeded but other slot not ready, retrying active slot anyway\n"
    ∷ []
calls_of (Message.write_back_failed block) =
    Call.text "stage0: WARNING slot-state write-back failed (block "
    ∷ Call.hex block
    ∷ Call.text "), continuing anyway\n"
    ∷ []
calls_of Message.invalid_length = Call.text "stage0: active slot has invalid recorded length\n" ∷ []
calls_of (Message.loading len) =
    Call.text "stage0: loading len=0x" ∷ Call.hex len ∷ Call.text "\n" ∷ []
calls_of (Message.read_failed i) =
    Call.text "stage0: read failed at block offset " ∷ Call.hex i ∷ Call.text "\n" ∷ []
calls_of Message.mismatch = Call.text "stage0: payload SHA-256 mismatch, refusing to jump\n" ∷ []
calls_of Message.verified = Call.text "stage0: verified, jumping to 0x00200000\n" ∷ []
calls_of (Message.fatal code) =
    Call.text "\nstage0: FATAL, halting (code=0x" ∷ Call.hex code ∷ Call.text ")\n" ∷ []

-- The characters of a call, and of calls in order.
abbrev pub shown : Call → List ℕ
shown (Call.text s) = codes s
shown (Call.hex v) = u_hex32 v
shown (Call.char c) = c ∷ []

unfoldable pub all_shown : List Call → List ℕ
all_shown [] = []
all_shown (c ∷ cs) = shown c ++ all_shown cs

-- A call that the loops have fuel for, and that prints bytes.
abbrev IsFine : Call → Type 0
IsFine (Call.text s) = (is_text (codes s) ≡ true) × (length (codes s) < 100)
IsFine (Call.hex v) = Unit
IsFine (Call.char c) = IsByte c

calls_of-IsFine : (m : Message) → All IsFine (calls_of m)
unfolding calls_of
calls_of-IsFine Message.starting = ground arith
calls_of-IsFine (Message.init_failed rc) = ground arith
calls_of-IsFine Message.no_record = ground arith
calls_of-IsFine (Message.attempt slot count limit) = ground arith
calls_of-IsFine (Message.falling_back slot) = ground arith
calls_of-IsFine Message.not_ready = ground arith
calls_of-IsFine (Message.write_back_failed block) = ground arith
calls_of-IsFine Message.invalid_length = ground arith
calls_of-IsFine (Message.loading len) = ground arith
calls_of-IsFine (Message.read_failed i) = ground arith
calls_of-IsFine Message.mismatch = ground arith
calls_of-IsFine Message.verified = ground arith
calls_of-IsFine (Message.fatal code) = ground arith

module _ (answers : ℕ → ℕ → ℕ) (limit : ℕ) where
  unfoldable pub perform : Call → Action Bus (Unit {0})
  perform (Call.text s) = say answers limit port_rpi1 s
  perform (Call.hex v) = put_hex (u_putc answers limit) 8 v
  perform (Call.char c) = u_putc answers limit c

  unfoldable pub perform_all : List Call → Action Bus (Unit {0})
  perform_all [] = pure tt
  perform_all (c ∷ cs) = perform c >> perform_all cs

  -- The lines of a run of `stage0_main`, in order.
  unfoldable pub print_console : List Message → Action Bus (Unit {0})
  print_console [] = pure tt
  print_console (m ∷ ms) = perform_all (calls_of m) >> print_console ms

unfoldable pub console_text : List Message → List ℕ
console_text [] = []
console_text (m ∷ ms) = all_shown (calls_of m) ++ console_text ms

pub console_text-append :
    (ms ns : List Message) → console_text (ms ++ ns) ≡ console_text ms ++ console_text ns
unfolding console_text
console_text-append [] ns = refl
console_text-append (m ∷ ms) ns =
    ap (λ t. all_shown (calls_of m) ++ t) (console_text-append ms ns)
    ∙ sym (append_assoc (all_shown (calls_of m)) (console_text ms) (console_text ns))

module _ (answers : ℕ → ℕ → ℕ) (limit : ℕ) (enough : 100 ≤ limit)
    (drains : Drains answers port_rpi1.fr limit) where
  perform-Prints : (c : Call) → IsFine c → Prints port_rpi1.dr (perform answers limit c) (shown c)
  unfolding perform u_hex32
  perform-Prints (Call.text s) (plain, short) =
      say-Prints port_rpi1 answers limit drains s plain (omega arith)
  perform-Prints (Call.hex v) fine =
      put_hex-Prints (putc_on-Prints port_rpi1 answers limit drains) 8 v
  perform-Prints (Call.char c) fine = putc_on-Prints port_rpi1 answers limit drains c fine

  pub perform_all-Prints :
      (cs : List Call)
      → All IsFine cs
      → Prints port_rpi1.dr (perform_all answers limit cs) (all_shown cs)
  unfolding perform_all all_shown
  perform_all-Prints [] fine = Prints-pure port_rpi1.dr
  perform_all-Prints (c ∷ cs) (here, fine) =
      Prints-then port_rpi1.dr (perform answers limit c) (perform_all answers limit cs) (shown c)
        (all_shown cs) (perform-Prints c here) (perform_all-Prints cs fine)

  pub print_console-Prints :
      (ms : List Message) → Prints port_rpi1.dr (print_console answers limit ms) (console_text ms)
  unfolding print_console console_text
  print_console-Prints [] = Prints-pure port_rpi1.dr
  print_console-Prints (m ∷ ms) =
      Prints-then port_rpi1.dr (perform_all answers limit (calls_of m))
        (print_console answers limit ms) (all_shown (calls_of m)) (console_text ms)
        (perform_all-Prints (calls_of m) (calls_of-IsFine m)) (print_console-Prints ms)
