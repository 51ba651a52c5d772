-- ===== src/Uart/Printf.antt =====
-- The two `dprintf` of boot/rpi1/runtime_stubs.c and boot/rpi4/runtime_stubs_rpi4.c, which have the
-- same text up to the names of their helpers, over a format in memory. The variadic arguments are a
-- list of words: pointers for `%s` and 64-bit numbers for `%d`; a read past its end diverges.
use dhruvaos.Base.{
  ℕ, zero, suc, ◌+◌, List, [], ◌∷◌, Option, none, some, ◌==◌, ◌&&◌, ◌||◌, not, if◌then◌else◌,
}
use dhruvaos.Base.Action.{Action, pure, diverge, ◌>>=◌, ◌>>◌}
use dhruvaos.Uart.{Bus, Port, port_rpi1, port_rpi4, putc_on, puts, put_i64}

-- `while (*fmt == 'l')`
unfoldable pub skip_ls : ℕ → (ℕ → ℕ) → ℕ → Option ℕ
skip_ls zero memory fmt = none
skip_ls (suc fuel) memory fmt =
    let rest = skip_ls fuel memory (fmt + 1) in if memory fmt == 108 then rest else some fmt

module _ (putc : ℕ → Action Bus (Unit {0})) (limit : ℕ) (memory : ℕ → ℕ) where
  -- `%s` with its letter at `fmt`: what the loop goes on with.
  unfoldable pub string_at : ℕ → List ℕ → Action Bus (ℕ × List ℕ)
  string_at fmt [] = diverge
  string_at fmt (s ∷ args) = puts putc limit memory s >> pure (fmt + 1, args)

  -- `%d` with the `d` at `fmt`.
  unfoldable pub number_at : ℕ → List ℕ → Action Bus (ℕ × List ℕ)
  number_at fmt [] = diverge
  number_at fmt (v ∷ args) = put_i64 putc v >> pure (fmt + 1, args)

  unfoldable pub long_at : ℕ → List ℕ → Action Bus (ℕ × List ℕ)
  long_at fmt args = elim (skip_ls limit memory fmt) [ none ↦ diverge | some d ↦ number_at d args ]

  -- The letter behind a `%`.
  unfoldable pub directive_at : ℕ → List ℕ → Action Bus (ℕ × List ℕ)
  directive_at fmt args =
      let c = memory fmt in
      if c == 115
      then string_at fmt args
      else if (c == 100) || (c == 108)
      then long_at fmt args
      else (putc 37 >> (putc c >> pure (fmt + 1, args)))

  -- The loop of `dprintf`.
  unfoldable pub dprintf_at : ℕ → ℕ → List ℕ → Action Bus (Unit {0})
  dprintf_at zero fmt args = diverge
  dprintf_at (suc fuel) fmt args =
      let c = memory fmt in
      let after_percent = directive_at (fmt + 1) args >>= λ next. dprintf_at fuel next.0 next.1 in
      let plain = putc c >> dprintf_at fuel (fmt + 1) args in
      if c == 0
      then pure tt
      else if (c == 37) && not (memory (fmt + 1) == 0)
      then after_percent
      else plain

-- `dprintf` on the UART of a board, on fuel for the rounds of its loop, and of either board.
unfoldable pub dprintf_on :
    Port → (ℕ → ℕ → ℕ) → ℕ → (ℕ → ℕ) → ℕ → ℕ → List ℕ → Action Bus (Unit {0})
dprintf_on port answers limit memory fuel fmt args =
    dprintf_at (putc_on port answers limit) limit memory fuel fmt args

abbrev pub dprintf_rpi1 : (ℕ → ℕ → ℕ) → ℕ → (ℕ → ℕ) → ℕ → ℕ → List ℕ → Action Bus (Unit {0})
dprintf_rpi1 = dprintf_on port_rpi1

abbrev pub dprintf_rpi4 : (ℕ → ℕ → ℕ) → ℕ → (ℕ → ℕ) → ℕ → ℕ → List ℕ → Action Bus (Unit {0})
dprintf_rpi4 = dprintf_on port_rpi4
