-- ===== src/Sd/Card.antt =====
-- The SD driver as the card of `stage0_main`: its three functions, with a block
-- of 512 bytes as the 128 little-endian words of the FIFO.
pub mod Bytes
pub mod Loads
pub mod Boots
use dhruvaos.Base.{
  ℕ, zero, suc, ◌+◌, ◌*◌, ◌/◌, ◌%◌, ◌^◌, ◌≤◌, ◌≡◌, refl, ap, Bool, Option, none, some, List, [],
  ◌∷◌, length, drop,
}
use dhruvaos.Slot.{at}
use dhruvaos.Sd.{Device, Driver}
use dhruvaos.Sd.Access.{IsTimed}
use dhruvaos.Sd.Block.{sd_read_block, sd_write_block}
use dhruvaos.Sd.Block.Reads.{sd_read_block-IsRead}
use dhruvaos.Sd.Block.Writes.{sd_write_block-IsWritten}
use dhruvaos.Sd.Init.{sd_init}
use dhruvaos.Sd.Init.Protocol.{sd_init-IsInitialised}
use dhruvaos.Boot.Run.{SdCard}

-- `rbuf` and `wbuf`: the bytes of a buffer of words, and the words of a buffer of bytes.
unfoldable pub bytes_of : List ℕ → List ℕ
bytes_of [] = []
bytes_of (w ∷ ws) =
    w % 2 ^ 8 ∷ w / 2 ^ 8 % 2 ^ 8 ∷ w / 2 ^ 16 % 2 ^ 8 ∷ w / 2 ^ 24 % 2 ^ 8 ∷ bytes_of ws

unfoldable pub words_of : ℕ → List ℕ → List ℕ
words_of zero bytes = []
words_of (suc n) bytes =
    (at bytes 0 + at bytes 1 * 2 ^ 8 + at bytes 2 * 2 ^ 16 + at bytes 3 * 2 ^ 24)
    ∷ words_of n (drop 4 bytes)

pub length-words_of : (n : ℕ) (bytes : List ℕ) → length (words_of n bytes) ≡ n
unfolding words_of
length-words_of zero bytes = refl
length-words_of (suc n) bytes = ap suc (length-words_of n (drop 4 bytes))

-- The bytes of a block that was read.
abbrev pub block_bytes : Option (List ℕ) → Option (List ℕ)
block_bytes none = none
block_bytes (some ws) = some (bytes_of ws)

-- What each function returns is what its theorem says that it returns.
abbrev pub sd_card : (dev : Device) → IsTimed dev → (fuel : ℕ) → 10 ^ 9 ≤ fuel → SdCard
sd_card dev timed fuel enough = record {
  Card = Driver dev.Hardware;
  init = λ s. let run = sd_init-IsInitialised dev timed fuel enough s in (run.result, run.state);
  read_block = λ n s.
      let run = sd_read_block-IsRead dev timed fuel enough n s in
      (block_bytes run.result, run.state);
  write_block = λ n bytes s.
      let run =
        sd_write_block-IsWritten dev timed fuel enough n (words_of 128 bytes) s
          (length-words_of 128 bytes) in
      (run.result, run.state);
}
