-- ===== src/Heap/Align.antt =====
-- Rounding up with a mask is rounding up to a multiple.
use dhruvaos.Base.{ℕ, ◌+◌, ◌-◌, ◌*◌, ◌/◌, ◌^◌, ◌<◌, ◌≡◌, refl, arith, u32}
use dhruvaos.Base.Bits.{bit_and_low, bit_and_high}
use dhruvaos.Heap.{align_8, align_page}

pub align_8_lem : (x : ℕ) → x + 7 < 2 ^ 32 → align_8 x ≡ (x + 7) / 8 * 8
unfolding align_8
align_8_lem x h = omega (
  arith,
  bit_and_high 3 (2 ^ 29 - 1) (u32 (x + 7)),
  bit_and_low 29 (2 ^ 29 - 1) (u32 (x + 7) / 8) refl,
)

pub align_page_lem : (x : ℕ) → x + 4095 < 2 ^ 32 → align_page x ≡ (x + 4095) / 4096 * 4096
unfolding align_page
align_page_lem x h = omega (
  arith,
  bit_and_high 12 (2 ^ 20 - 1) (u32 (x + 4095)),
  bit_and_low 20 (2 ^ 20 - 1) (u32 (x + 4095) / 4096) refl,
)
