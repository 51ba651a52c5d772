-- ===== src/Base/Words.antt =====
-- Machine words as native numbers: casts cut off, sums wrap, shifts multiply and divide.
use Prim.Native.Nat.{ℕ, ◌+◌, ◌-◌, ◌*◌, ◌/◌, ◌%◌, ◌^◌, ◌<◌}

-- `(unsigned char)`, `unsigned int` and `unsigned long long`.
abbrev pub u8 : ℕ → ℕ
u8 n = n % 2 ^ 8

abbrev pub u32 : ℕ → ℕ
u32 n = n % 2 ^ 32

abbrev pub u64 : ℕ → ℕ
u64 n = n % 2 ^ 64

infixl 75 ◌<<◌ ◌>>◌
-- A left shift before the result is cut to its width.
abbrev pub ◌<<◌ : ℕ → ℕ → ℕ
x << k = x * 2 ^ k

abbrev pub ◌>>◌ : ℕ → ℕ → ℕ
x >> k = x / 2 ^ k

-- `a - b` on `unsigned int`.
abbrev pub sub_u32 : ℕ → ℕ → ℕ
sub_u32 a b = (a + 2 ^ 32 - b) % 2 ^ 32

abbrev pub IsByte : ℕ → Type 0
IsByte n = n < 256

abbrev pub IsWord : ℕ → Type 0
IsWord n = n < 2 ^ 32
