-- ===== src/Uart/Traps.antt =====
-- The two formats that compiled code passes to `dprintf` when a check fails, from memory to the
-- UART: a fixed message, and "assertion failed: %s" around a message.
use dhruvaos.Base.{ℕ, suc, ◌<◌, List, [], ◌∷◌, ◌++◌, length, All}
use dhruvaos.Console.{Arg}
use dhruvaos.Console.Format.{IsPlain, dprintf-plain, dprintf-string}
use dhruvaos.Uart.{Port}
use dhruvaos.Uart.Prints.{Prints, HoldsString, Drains}
use dhruvaos.Uart.Printf.{dprintf_on}
use dhruvaos.Uart.Refine.{dprintf_on-Prints}

module _ (port : Port) (answers : ℕ → ℕ → ℕ) (limit : ℕ) (memory : ℕ → ℕ)
    (drains : Drains answers port.fr limit) where
  pub fixed_message-Prints :
      (text : List ℕ) (fmt : ℕ)
      → All IsPlain text
      → HoldsString memory fmt text
      → length text < limit
      → Prints port.dr (dprintf_on port answers limit memory (suc (length text)) fmt []) text
  fixed_message-Prints text fmt plain h lt =
      dprintf_on-Prints port answers limit memory text [] fmt [] text drains h lt tt
        (dprintf-plain text [] plain)

  pub assert_message-Prints :
      (pre post s : List ℕ) (fmt message : ℕ)
      → All IsPlain pre
      → All IsPlain post
      → HoldsString memory fmt (pre ++ 37 ∷ 115 ∷ post)
      → HoldsString memory message s
      → length (pre ++ 37 ∷ 115 ∷ post) < limit
      → length s < limit
      → Prints port.dr
          (dprintf_on port answers limit memory
            (suc (length (pre ++ 37 ∷ 115 ∷ post)))
            fmt
            (message ∷ []))
          (pre ++ (s ++ post))
  assert_message-Prints pre post s fmt message hpre hpost hf hs lf ls =
      dprintf_on-Prints port answers limit memory (pre ++ 37 ∷ 115 ∷ post) (Arg.string s ∷ []) fmt
        (message ∷ []) (pre ++ (s ++ post)) drains hf lf (hs, ls, tt)
        (dprintf-string pre post s [] hpre hpost)

-- The messages of failed checks on either board, end to end. Take a UART whose transmit FIFO has
-- room again within `limit` reads of its flags whenever it is read, and C strings of fewer than
-- `limit` bytes in memory. `dprintf` with a format that has no `%` writes the format to the UART's
-- data register; with a format that is a text without `%`, then `%s`, then a text without `%`, and
-- a string as its argument, it writes the first text, the string and the second text; and it
-- returns both times, on one round more than the format has characters.
pub trap_messages-Prints :
    (port : Port) (answers : ℕ → ℕ → ℕ) (limit : ℕ) (memory : ℕ → ℕ) (text pre post s : List ℕ)
    (fixed fmt message : ℕ)
    → Drains answers port.fr limit
    → All IsPlain text
    → All IsPlain pre
    → All IsPlain post
    → HoldsString memory fixed text
    → HoldsString memory fmt (pre ++ 37 ∷ 115 ∷ post)
    → HoldsString memory message s
    → length text < limit
    → length (pre ++ 37 ∷ 115 ∷ post) < limit
    → length s < limit
    → Prints port.dr (dprintf_on port answers limit memory (suc (length text)) fixed []) text
      × Prints port.dr
          (dprintf_on port answers limit memory
            (suc (length (pre ++ 37 ∷ 115 ∷ post)))
            fmt
            (message ∷ []))
          (pre ++ (s ++ post))
trap_messages-Prints port answers limit memory text pre post s fixed fmt message drains ht hpre
      hpost mt mf ms lt lf ls =
    (
      fixed_message-Prints port answers limit memory drains text fixed ht mt lt,
      assert_message-Prints port answers limit memory drains pre post s fmt message hpre hpost mf ms
          lf ls,
    )
