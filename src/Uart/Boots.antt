-- ===== src/Uart/Boots.antt =====
-- What a run of `stage0_main` shows on the UART.
use dhruvaos.Base.{ℕ, ◌≤◌, ◌≡◌, ◌∙◌, refl, ap, List, [], ◌∷◌, ◌++◌, append-nil, length}
use mathlib.Core.Path.{subst}
use dhruvaos.Sha256.{Ctx}
use dhruvaos.Sd.Hex.{u_hex32}
use dhruvaos.Boot.Run.{SdCard, Message, World, Outcome, stage0_main}
use dhruvaos.Boot.Run
use dhruvaos.Boot.Verify.{IsSound, stage0_main-IsSound}
use dhruvaos.Boot.Ending.{IsEnded, EndsWith, stage0_main-IsEnded}
use dhruvaos.Uart.{port_rpi1, codes}
use dhruvaos.Uart.Prints.{Prints, Drains}
use dhruvaos.Uart.Console.{
  calls_of, all_shown, print_console, console_text, console_text-append, print_console-Prints,
}

abbrev pub fatal_text : ℕ → List ℕ
fatal_text code = codes "\nstage0: FATAL, halting (code=0x" ++ (u_hex32 code ++ codes ")\n")

abbrev pub verified_text : List ℕ
verified_text = codes "stage0: verified, jumping to 0x00200000\n"

fatal_text_lem : (code : ℕ) → console_text (Message.fatal code ∷ []) ≡ fatal_text code
unfolding console_text all_shown calls_of
fatal_text_lem code = append-nil (fatal_text code)

verified_text_lem : console_text (Message.verified ∷ []) ≡ verified_text
unfolding console_text all_shown calls_of
verified_text_lem = refl

module _ (answers : ℕ → ℕ → ℕ) (limit : ℕ) (sd : SdCard) where
  -- What the console sends ends with this text.
  abbrev pub SendsLast : World sd → List ℕ → Type 0
  SendsLast w last =
      (before : List ℕ) × Prints port_rpi1.dr (print_console answers limit w.console)
        (before ++ last)

  abbrev pub IsShown : Outcome sd → Type 0
  IsShown (Run.Outcome.halted code w) = SendsLast w (fatal_text code)
  IsShown (Run.Outcome.jumped r0 memory w) = SendsLast w verified_text
  IsShown Run.Outcome.stuck = ⊥

  module _ (enough : 100 ≤ limit) (drains : Drains answers port_rpi1.fr limit) where
    ends-SendsLast :
        (m : Message) (w : World sd) (last : List ℕ)
        → console_text (m ∷ []) ≡ last
        → EndsWith sd m w
        → SendsLast w last
    ends-SendsLast m w last e (before, split) =
        let whole : console_text w.console ≡ console_text before ++ last =
          ap console_text split
          ∙ (console_text-append before (m ∷ []) ∙ ap (λ t. console_text before ++ t) e) in
        (
          console_text before,
          subst (Prints port_rpi1.dr (print_console answers limit w.console)) whole
              (print_console-Prints answers limit enough drains w.console),
        )

    ended-IsShown : (o : Outcome sd) → IsSound sd o → IsEnded sd o → IsShown o
    ended-IsShown (Run.Outcome.halted code w) sound ended =
        ends-SendsLast (Message.fatal code) w (fatal_text code) (fatal_text_lem code) ended
    ended-IsShown (Run.Outcome.jumped r0 memory w) sound ended =
        ends-SendsLast Message.verified w verified_text verified_text_lem ended
    ended-IsShown Run.Outcome.stuck sound ended = sound

-- For any card, any hash context with a 64-byte buffer, and a UART whose transmit FIFO has room
-- again within `limit` reads of its flags whenever it is read, with at least 100 rounds for each
-- loop: `stage0_main` halts or jumps, and the calls of `u_puts`, `u_hex32` and `u_putc` for the
-- lines that it has printed return and write to the UART's data register a text that ends, when it
-- halts, with the line of `stage0_fault` with the hexadecimal digits of its code, and when it
-- jumps, with the line that announces the jump.
pub stage0_main-IsShown :
    (answers : ℕ → ℕ → ℕ) (limit : ℕ) (sd : SdCard) (garbage : Ctx) (w : World sd)
    → 100 ≤ limit
    → Drains answers port_rpi1.fr limit
    → length garbage.buf ≡ 64
    → IsShown answers limit sd (stage0_main sd garbage w)
stage0_main-IsShown answers limit sd garbage w enough drains size =
    ended-IsShown answers limit sd enough drains (stage0_main sd garbage w)
      (stage0_main-IsSound sd garbage w size) (stage0_main-IsEnded sd garbage w)
