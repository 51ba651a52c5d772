-- ===== src/Boot/Watchdog.antt =====
-- `stage0_arm_watchdog` of boot/stage0/stage0_main.c, which a build with
-- `STAGE0_PREJUMP_WATCHDOG_FOR_REAL_HARDWARE` calls.
use Prim.Native.Nat.{max}
use dhruvaos.Base.{
  ℕ, ◌∙◌, min, ap, ◌-◌, ◌≤◌, ◌+◌, ◌*◌, ◌/◌, ◌%◌, ◌^◌, ◌<◌, ◌≡◌, refl, arith, bit_and, bit_or, [],
  ◌∷◌, ◌++◌,
}
use dhruvaos.Base.Action.{Action, ◌>>=◌, ◌>>◌, Ensures}
use dhruvaos.Base.Bits.{
  bit_and_low, bit_and_high, bit_and_step, bit_or_step, bit_or_fields, bit_or_zero,
}
use dhruvaos.Uart.{Bus, read_register, write_register}

abbrev pub pm_rstc : ℕ
pm_rstc = 0x2010001C

abbrev pub pm_wdog : ℕ
pm_wdog = 0x20100024

abbrev pub password : ℕ
password = 0x5A000000

-- `password | (cur & wrcfg_clr) | wrcfg_full_reset`
unfoldable pub rstc_word : ℕ → ℕ
rstc_word cur = bit_or (bit_or password (bit_and cur 0xFFFFFFCF)) 0x20

unfoldable pub stage0_arm_watchdog : (ℕ → ℕ → ℕ) → Action Bus (Unit {0})
stage0_arm_watchdog answers =
    write_register pm_wdog (bit_or password (bit_and 983040 0xFFFFF))
    >> (read_register answers pm_rstc >>= λ cur. write_register pm_rstc (rstc_word cur))

-- One digit below what a mask clears, and one below a bit that is set.
keep_step :
    (y m c : ℕ) → c ≤ y / 2 → bit_and (y / 2) m ≡ y / 2 - c → bit_and y (m * 2 + 1) ≡ y - c * 2
keep_step y m c h e =
    let half : (m * 2 + 1) / 2 ≡ m = omega arith in
    let odd : (m * 2 + 1) % 2 ≡ 1 = omega arith in
    let step : bit_and y (m * 2 + 1) ≡ (y / 2 - c) * 2 + min (y % 2) 1 =
      bit_and_step y (m * 2 + 1) ∙ (rw (half, odd, e)) in
    omega (arith, step)

set_step : (y m : ℕ) → bit_or (y / 2) m ≡ y / 2 + m → bit_or y (m * 2) ≡ y + m * 2
set_step y m e =
    let half : m * 2 / 2 ≡ m = omega arith in
    let even : m * 2 % 2 ≡ 0 = omega arith in
    let step : bit_or y (m * 2) ≡ (y / 2 + m) * 2 + max (y % 2) 0 =
      bit_or_step y (m * 2) ∙ (rw (half, even, e)) in
    omega (arith, step)

set_lowest : (y : ℕ) → y % 2 ≡ 0 → bit_or y 1 ≡ y + 1
set_lowest y h = omega (arith, bit_or_step y 1, bit_or_zero (y / 2))

-- The lowest two bits of a word are cleared.
clear_two : (y : ℕ) → y < 2 ^ 28 → bit_and y 0xFFFFFFC ≡ y - y % 4
clear_two y h = omega (arith, bit_and_high 2 0x3FFFFFF y, bit_and_low 26 0x3FFFFFF (y / 4) refl)

clear_lem : (x : ℕ) → x < 2 ^ 24 → bit_and x 0xFFFFFFCF ≡ x - x / 2 / 2 / 2 / 2 % 4 * 2 * 2 * 2 * 2
clear_lem x h =
    let c = x / 2 / 2 / 2 / 2 % 4 in
    keep_step x 0x7FFFFFE7 (c * 2 * 2 * 2) (omega arith) (
      keep_step (x / 2) 0x3FFFFFF3 (c * 2 * 2) (omega arith) (
        keep_step (x / 2 / 2) 0x1FFFFFF9 (c * 2) (omega arith) (
          keep_step (x / 2 / 2 / 2) 0xFFFFFFC c (omega arith)
            (clear_two (x / 2 / 2 / 2 / 2) (omega arith)))))

set_lem : (x : ℕ) → x / 2 / 2 / 2 / 2 / 2 % 2 ≡ 0 → bit_or x 0x20 ≡ x + 0x20
set_lem x h = set_step x 16 (
    set_step (x / 2) 8 (
      set_step (x / 2 / 2) 4 (
        set_step (x / 2 / 2 / 2) 2
          (set_step (x / 2 / 2 / 2 / 2) 1 (set_lowest (x / 2 / 2 / 2 / 2 / 2) h)))))

-- The two bits are replaced by 2.
rstc_word_lem :
    (cur : ℕ) → cur < 2 ^ 24 → rstc_word cur ≡ 0x5A * 2 ^ 24 + (cur - cur / 16 % 4 * 16) + 32
unfolding rstc_word
rstc_word_lem cur h =
    let low = cur - cur / 16 % 4 * 16 in
    let digit : cur / 2 / 2 / 2 / 2 ≡ cur / 16 = omega arith in
    let clear : bit_and cur 0xFFFFFFCF ≡ low =
      clear_lem cur h ∙ omega (arith, ap (λ t. t % 4) digit) in
    let joined : bit_or password low ≡ password + low = bit_or_fields 24 0x5A low (omega arith) in
    rw (clear, joined, set_lem (password + low) (omega arith)) (omega arith)

-- When the reset register reads below 2 ^ 24, `stage0_arm_watchdog` returns after two writes: the
-- watchdog's register gets the password and 15 seconds in ticks of 1 / 65536 second, and the reset
-- register gets the password and what was read, with bit 5 set and bit 4 clear.
pub stage0_arm_watchdog-Ensures :
    (answers : ℕ → ℕ → ℕ) (u : Bus)
    → answers pm_rstc u.reads < 2 ^ 24
    → Ensures
        (λ a u'.
          u'.writes
          ≡ (u.writes ++ (pm_wdog, 0x5A * 2 ^ 24 + 15 * 2 ^ 16) ∷ [])
            ++ (
              pm_rstc,
              0x5A * 2 ^ 24
                  + (answers pm_rstc u.reads - answers pm_rstc u.reads / 16 % 4 * 16)
                  + 32,
            )
              ∷ [])
        (stage0_arm_watchdog answers u)
unfolding stage0_arm_watchdog ◌>>=◌ read_register write_register
stage0_arm_watchdog-Ensures answers u h = record {
  result = tt;
  state = record {
    reads = u.reads + 1;
    writes =
        (u.writes ++ (pm_wdog, bit_or password (bit_and 983040 0xFFFFF)) ∷ [])
        ++ (pm_rstc, rstc_word (answers pm_rstc u.reads)) ∷ [];
  };
  returned = refl;
  post = rw (rstc_word_lem (answers pm_rstc u.reads) h);
}
