-- ===== src/Sd/Card/Bytes.antt =====
-- The blocks that boot/stage0/sdread.c reads, as bytes.
use mathlib.Core.Path.{subst}
use dhruvaos.Base.{
  ℕ, ◌*◌, ◌^◌, ◌≤◌, ◌≡◌, refl, Option, none, some, List, [], ◌∷◌, length, arith, All, IsByte,
}
use dhruvaos.Sd.{Device}
use dhruvaos.Sd.Access.{IsTimed}
use dhruvaos.Boot.Bytes.{GivesBytes}
use dhruvaos.Sd.Card.{bytes_of, block_bytes, sd_card}

pub length-bytes_of : (ws : List ℕ) → length (bytes_of ws) ≡ 4 * length ws
unfolding bytes_of
length-bytes_of [] = refl
length-bytes_of (w ∷ ws) = omega (arith, length-bytes_of ws)

bytes_of-IsByte : (ws : List ℕ) → All IsByte (bytes_of ws)
unfolding bytes_of
bytes_of-IsByte [] = tt
bytes_of-IsByte (w ∷ ws) =
    (omega arith, (omega arith, (omega arith, (omega arith, bytes_of-IsByte ws))))

block_bytes-IsByte :
    (got : Option (List ℕ)) (block : List ℕ) → block_bytes got ≡ some block → All IsByte block
block_bytes-IsByte none block e = cc
block_bytes-IsByte (some ws) block e = subst (All IsByte) (cc e) (bytes_of-IsByte ws)

-- A block that the driver has read is bytes.
pub sd_card-GivesBytes :
    (dev : Device) (timed : IsTimed dev) (fuel : ℕ) (enough : 10 ^ 9 ≤ fuel)
    → GivesBytes (sd_card dev timed fuel enough)
sd_card-GivesBytes dev timed fuel enough n s block e = block_bytes-IsByte _ block e
