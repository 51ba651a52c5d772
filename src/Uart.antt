-- ===== src/Uart.antt =====
-- The UART as the C code of boot/ drives it, by polling: `u_putc`, `u_puts` and `u_hex32` of
-- boot/stage0/sdread.c, the `dhruva_dprintf_…` and `dhruva_oom_…` helpers of
-- boot/rpi1/runtime_stubs.c and those of boot/rpi4/runtime_stubs_rpi4.c. The hardware is a function
-- that answers the reads of each register in turn, and what the code does to it is the list of its
-- writes. A loop is on fuel, and diverges where the fuel runs out; `limit` is the fuel of each.
pub mod Prints
pub mod Numbers
pub mod Printf
pub mod Directive
pub mod Refine
pub mod Report
pub mod Traps
pub mod Refused
pub mod Halt
pub mod Console
pub mod Boots
use Prim.Native.Char.{code}
use Prim.Native.String.{String}
use dhruvaos.Base.{
  ℕ, zero, suc, ◌+◌, ◌-◌, ◌*◌, ◌/◌, ◌^◌, bit_and, List, [], ◌∷◌, ◌++◌, none, some, length, get_or,
  ltb, ◌==◌, if◌then◌else◌, u8, u64,
}
use dhruvaos.Base.Action.{Action, pure, diverge, ◌>>=◌, ◌>>◌}
use dhruvaos.Console.{collect}
use dhruvaos.Sd.Hex.{hexd}

-- How many reads were made, and each write with its address.
pub record Bus : Type 0 where
  pub reads : ℕ
  pub writes : List (ℕ × ℕ)

module _ (answers : ℕ → ℕ → ℕ) where
  unfoldable pub read_register : ℕ → Action Bus ℕ
  read_register addr u = some (answers addr u.reads, record u { reads = u.reads + 1 })

  -- `while ((*uart_fr) & 0x20)`: the transmit FIFO is full.
  unfoldable pub wait_room : ℕ → ℕ → Action Bus (Unit {0})
  wait_room zero fr = diverge
  wait_room (suc fuel) fr =
      let rest = wait_room fuel fr in
      read_register fr >>= λ flags. if bit_and flags 0x20 == 0 then pure tt else rest

unfoldable pub write_register : ℕ → ℕ → Action Bus (Unit {0})
write_register addr v u = some (tt, record u { writes = u.writes ++ (addr, v) ∷ [] })

-- The registers of a UART.
pub record Port : Type 0 where
  pub fr : ℕ
  pub dr : ℕ

abbrev pub port_rpi1 : Port
port_rpi1 = record { fr = 0x20201018; dr = 0x20201000 }

abbrev pub port_rpi4 : Port
port_rpi4 = record { fr = 0xFE201018; dr = 0xFE201000 }

-- A byte on a UART; the functions below take it as their `putc`.
unfoldable pub putc_on : Port → (ℕ → ℕ → ℕ) → ℕ → ℕ → Action Bus (Unit {0})
putc_on port answers limit c = wait_room answers limit port.fr >> write_register port.dr (u8 c)

abbrev pub u_putc : (ℕ → ℕ → ℕ) → ℕ → ℕ → Action Bus (Unit {0})
u_putc = putc_on port_rpi1

abbrev pub dhruva_dprintf_putc : (ℕ → ℕ → ℕ) → ℕ → ℕ → Action Bus (Unit {0})
dhruva_dprintf_putc = putc_on port_rpi1

abbrev pub dhruva_oom_putc : (ℕ → ℕ → ℕ) → ℕ → ℕ → Action Bus (Unit {0})
dhruva_oom_putc = putc_on port_rpi1

abbrev pub dhruva_dprintf_putc_rpi4 : (ℕ → ℕ → ℕ) → ℕ → ℕ → Action Bus (Unit {0})
dhruva_dprintf_putc_rpi4 = putc_on port_rpi4

-- The code points of a text, and the memory that holds it as a C string at address 0.
abbrev pub codes : String → List ℕ
codes String.[] = []
codes (String.◌∷◌ c s) = code c ∷ codes s

abbrev pub literal : String → ℕ → ℕ
literal s a = get_or (codes s) a 0

module _ (putc : ℕ → Action Bus (Unit {0})) where
  -- `while (*s != '\0')`: `dhruva_dprintf_puts`; its copies are below.
  unfoldable pub puts : ℕ → (ℕ → ℕ) → ℕ → Action Bus (Unit {0})
  puts zero memory s = diverge
  puts (suc fuel) memory s =
      let rest = putc (memory s) >> puts fuel memory (s + 1) in
      if memory s == 0 then pure tt else rest

  -- `while (n > 0)` over the collected digits.
  unfoldable pub send_back : ℕ → List ℕ → Action Bus (Unit {0})
  send_back zero digits = pure tt
  send_back (suc n) digits = putc (get_or digits n 0) >> send_back n digits

  -- `dhruva_oom_put_u64`, with one round for each of the 24 elements of `digits`.
  unfoldable pub put_u64 : ℕ → Action Bus (Unit {0})
  put_u64 v = if v == 0 then putc 48 else elim (collect 24 v []) [
    | none ↦ diverge
    | some digits ↦ send_back (length digits) digits
  ]

  -- `dhruva_dprintf_put_i64`, for the 64 bits of `v`; after the sign it is the same text.
  unfoldable pub put_i64 : ℕ → Action Bus (Unit {0})
  put_i64 v = if ltb v (2 ^ 63) then put_u64 v else (putc 45 >> put_u64 (u64 (2 ^ 64 - v)))

  -- The loop of `u_hex32`, with `left` rounds to go.
  unfoldable pub put_hex : ℕ → ℕ → Action Bus (Unit {0})
  put_hex zero v = pure tt
  put_hex (suc i) v = putc (get_or hexd (bit_and (v / 2 ^ (i * 4)) 0xF) 0) >> put_hex i v

-- The other functions with this text.
abbrev pub u_puts : (ℕ → Action Bus (Unit {0})) → ℕ → (ℕ → ℕ) → ℕ → Action Bus (Unit {0})
u_puts = puts

abbrev pub dhruva_oom_puts : (ℕ → Action Bus (Unit {0})) → ℕ → (ℕ → ℕ) → ℕ → Action Bus (Unit {0})
dhruva_oom_puts = puts

abbrev pub dhruva_dprintf_puts_rpi4 :
    (ℕ → Action Bus (Unit {0})) → ℕ → (ℕ → ℕ) → ℕ → Action Bus (Unit {0})
dhruva_dprintf_puts_rpi4 = puts
