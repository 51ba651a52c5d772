-- ===== src/Sha256/Fips/Rounds.antt =====
-- The third loop of `sha256_block`, and the whole block, beside FIPS 180-4.
use dhruvaos.Base.{
  ℕ, zero, suc, ◌+◌, ◌≡◌, refl, ap₂, bit_xor, List, arith, IsByte, IsWord, length, reads, reads_all,
  All, All-get_or,
}
use mathlib.Core.Path.{subst}
use native.Mathlib.Nat.{add_comm}
use dhruvaos.Sha256.{Regs, rotr32, round, rounds, add_regs, compress, k_table, at}
use dhruvaos.Sha256.Fips.{
  big_sigma0, big_sigma1, choose, majority, schedule, step, steps, start, add, hash_block,
}
use dhruvaos.Sha256.Fips.Words.{rotr32-rotr, round_constants_lem}
use dhruvaos.Sha256.Fips.Schedule.{extend_words-schedule, length-schedule}

module _ (x : ℕ) (h : IsWord x) where
  big_sigma0_lem : bit_xor (bit_xor (rotr32 x 2) (rotr32 x 13)) (rotr32 x 22) ≡ big_sigma0 x
  unfolding big_sigma0
  big_sigma0_lem = rw (
    rotr32-rotr 2 x (omega arith) (omega arith) refl h,
    rotr32-rotr 13 x (omega arith) (omega arith) refl h,
    rotr32-rotr 22 x (omega arith) (omega arith) refl h,
  )

  big_sigma1_lem : bit_xor (bit_xor (rotr32 x 6) (rotr32 x 11)) (rotr32 x 25) ≡ big_sigma1 x
  unfolding big_sigma1
  big_sigma1_lem = rw (
    rotr32-rotr 6 x (omega arith) (omega arith) refl h,
    rotr32-rotr 11 x (omega arith) (omega arith) refl h,
    rotr32-rotr 25 x (omega arith) (omega arith) refl h,
  )

-- The two variables that are turned are words.
record IsTurned (r : Regs) : Type 0 where
  a_word : IsWord r.a
  e_word : IsWord r.e

round-step : (k w : ℕ) (r : Regs) → IsTurned r → (round k w r ≡ step k w r) × IsTurned (step k w r)
unfolding round step choose majority
round-step k w r t = (
  rw (big_sigma0_lem r.a t.a_word, big_sigma1_lem r.e t.e_word)
      (ap₂ shifted (omega arith) (omega arith)),
  record { a_word = omega arith; e_word = omega arith },
)
  where
    -- The variables after a step, but for the two that are computed.
    shifted : ℕ → ℕ → Regs
    shifted a e = record { a = a; b = r.a; c = r.b; d = r.c; e = e; f = r.e; g = r.f; h = r.g }

rounds-steps :
    (w : List ℕ) (left i : ℕ) (r : Regs)
    → IsTurned r
    → rounds w left i r ≡ steps (reads k_table 0 i left) (reads w 0 i left) r
unfolding rounds steps
rounds-steps w zero i r t = refl
rounds-steps w (suc left) i r t =
    let (same, t') = round-step (at k_table i) (at w i) r t in
    rw same (rounds-steps w left (i + 1) (step (at k_table i) (at w i) r) t')

add_regs-add : (h : List ℕ) (r : Regs) → add_regs h r ≡ add r (start h)
add_regs-add h r = rw (
  add_comm (at h 0) r.a,
  add_comm (at h 1) r.b,
  add_comm (at h 2) r.c,
  add_comm (at h 3) r.d,
  add_comm (at h 4) r.e,
  add_comm (at h 5) r.f,
  add_comm (at h 6) r.g,
  add_comm (at h 7) r.h,
)

reads_whole : (xs : List ℕ) (n : ℕ) → length xs ≡ n → reads xs 0 0 n ≡ xs
reads_whole xs n e = subst (λ m. reads xs 0 0 m ≡ xs) e (reads_all xs 0)

-- `sha256_block` is one step of the hash computation.
pub compress-hash_block :
    (h p : List ℕ) → All IsWord h → All IsByte p → compress h p ≡ hash_block h p
unfolding compress hash_block
compress-hash_block h p words bytes =
    let w = schedule p in
    let t : IsTurned (start h) = record {
      a_word = All-get_or IsWord h 0 0 words (omega arith);
      e_word = All-get_or IsWord h 4 0 words (omega arith);
    } in
    rw (
      extend_words-schedule p bytes,
      rounds-steps w 64 0 (start h) t,
      round_constants_lem,
      reads_whole k_table 64 refl,
      reads_whole w 64 (length-schedule p),
      add_regs-add h (steps k_table w (start h)),
    )
