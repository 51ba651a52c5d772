-- ===== src/Uart/Halt.antt =====
-- What is printed before a halt that is no allocation: `exit` of boot/rpi1/runtime_stubs.c, which a
-- runtime check calls, and `stage0_fault` of boot/stage0/stage0_main.c.
use dhruvaos.Base.{
  ℕ, zero, suc, ◌+◌, ◌-◌, ◌*◌, ◌/◌, ◌^◌, ◌≤◌, ◌<◌, ◌≡◌, refl, arith, bit_and, [], ◌∷◌, ◌++◌, get_or,
  ltb, ap₂, Bool, ◌==◌, ==_iff, all_below_sound, if◌then◌else◌,
}
use dhruvaos.Base.Action.{Action, pure, ◌>>◌}
use dhruvaos.Base.Bits.{bit_and_low}
use dhruvaos.Sd.Hex.{hexd, hex_digits, u_hex32}
use dhruvaos.Uart.{Bus, port_rpi1, u_putc, dhruva_dprintf_putc, put_hex, codes, putc_on}
use dhruvaos.Uart.Numbers.{put_hex-Prints}
use dhruvaos.Uart.Prints.{Prints, Prints-then, Drains, putc_on-Prints}
use dhruvaos.Uart.Report.{say, say-Prints}

module _ (putc : ℕ → Action Bus (Unit {0})) where
  -- `while (shift >= 0)`, with `shift` 4 below `left * 4`.
  unfoldable pub put_nibbles : ℕ → ℕ → Action Bus (Unit {0})
  put_nibbles zero real_lr = pure tt
  put_nibbles (suc i) real_lr =
      let nib = bit_and (real_lr / 2 ^ (i * 4)) 0xF in
      putc (if ltb nib 10 then 48 + nib else 65 + (nib - 10)) >> put_nibbles i real_lr

module _ (answers : ℕ → ℕ → ℕ) (limit : ℕ) where
  -- `exit`, for the word that it reads at `exit_fp + 8`.
  unfoldable pub exit : (ℕ → ℕ) → ℕ → Action Bus (Unit {0})
  exit word_at exit_fp =
      say answers limit port_rpi1 "panic caller LR=0x"
      >> (put_nibbles (dhruva_dprintf_putc answers limit) 8 (word_at (exit_fp + 8))
          >> dhruva_dprintf_putc answers limit 10)

  unfoldable pub stage0_fault_uart : ℕ → Action Bus (Unit {0})
  stage0_fault_uart code =
      say answers limit port_rpi1 "\nstage0: FATAL, halting (code=0x"
      >> (put_hex (u_putc answers limit) 8 code >> say answers limit port_rpi1 ")\n")

-- The two ways to choose the digit agree.
abbrev nibble_char : ℕ → ℕ
nibble_char nib = if ltb nib 10 then 48 + nib else 65 + (nib - 10)

same_char : ℕ → Bool
same_char nib = nibble_char nib == get_or hexd nib 0

nibble_char_lem : (nib : ℕ) → nib < 16 → nibble_char nib ≡ get_or hexd nib 0
unfolding same_char
nibble_char_lem nib h =
    (==_iff (nibble_char nib) (get_or hexd nib 0)).0 (all_below_sound same_char 16 nib refl h)

nibbles-hex :
    (putc : ℕ → Action Bus (Unit {0})) (left v : ℕ) → put_nibbles putc left v ≡ put_hex putc left v
unfolding put_nibbles put_hex
nibbles-hex putc zero v = refl
nibbles-hex putc (suc i) v =
    let nib = bit_and (v / 2 ^ (i * 4)) 0xF in
    let small : nib < 16 = omega (arith, bit_and_low 4 0xF (v / 2 ^ (i * 4)) refl) in
    ap₂ (λ c rest. putc c >> rest) (nibble_char_lem nib small) (nibbles-hex putc i v)

-- On a UART whose transmit FIFO has room again within `limit` reads of its flags whenever it is
-- read, with at least 40 rounds for each loop: `exit` writes its text, the eight hexadecimal digits
-- that `u_hex32` gives for the word at 8 bytes above its frame pointer, and a line feed, and
-- `stage0_fault` its text around those of its code; both get to the loop that halts.
pub halts-Prints :
    (answers : ℕ → ℕ → ℕ) (limit : ℕ) (word_at : ℕ → ℕ) (exit_fp code : ℕ)
    → Drains answers port_rpi1.fr limit
    → 40 ≤ limit
    → Prints port_rpi1.dr
        (exit answers limit word_at exit_fp)
        (codes "panic caller LR=0x" ++ (u_hex32 (word_at (exit_fp + 8)) ++ 10 ∷ []))
      × Prints port_rpi1.dr
          (stage0_fault_uart answers limit code)
          (codes "\nstage0: FATAL, halting (code=0x" ++ (u_hex32 code ++ codes ")\n"))
unfolding exit stage0_fault_uart u_hex32
halts-Prints answers limit word_at exit_fp code drains enough =
    let sends = putc_on-Prints port_rpi1 answers limit drains in
    let lr = word_at (exit_fp + 8) in
    let put = putc_on port_rpi1 answers limit in
    (
      Prints-then port_rpi1.dr _ _ (codes "panic caller LR=0x") _
          (say-Prints port_rpi1 answers limit drains "panic caller LR=0x" refl (omega arith))
          (Prints-then port_rpi1.dr _ _ (hex_digits 8 lr) (10 ∷ [])
            (rw (nibbles-hex put 8 lr) (put_hex-Prints sends 8 lr)) (sends 10 (omega arith))),
      Prints-then port_rpi1.dr _ _ (codes "\nstage0: FATAL, halting (code=0x") _
          (say-Prints port_rpi1 answers limit drains "\nstage0: FATAL, halting (code=0x" refl
            (omega arith))
          (Prints-then port_rpi1.dr _ _ (hex_digits 8 code) (codes ")\n")
            (put_hex-Prints sends 8 code)
            (say-Prints port_rpi1 answers limit drains ")\n" refl (omega arith))),
    )
