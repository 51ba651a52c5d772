-- ===== src/Boot/Hash.antt =====
-- The payload's digest: hashing it in chunks is hashing it.
use dhruvaos.Base.{
  ℕ, zero, suc, ◌<◌, ◌≤◌, ◌≡◌, refl, ap, sym, ◌∙◌, inl, inr, List, [], ◌∷◌, ◌++◌, arith, length,
  take, drop, length-drop, take-append-drop, nil_of_length, ltb, ◌==◌, if◌then◌else◌, Bool-cases,
}
use dhruvaos.Sha256.{Ctx}
use dhruvaos.Sha256.Digest.{update_all, flatten}
use dhruvaos.Boot.{hash_chunks}

-- The chunks that the loop passes to `sha256_update`.
unfoldable pub chunks_of : ℕ → ℕ → List ℕ → List (List ℕ)
chunks_of chunk zero bytes = []
chunks_of chunk (suc fuel) bytes =
    let this_len = if ltb chunk (length bytes) then chunk else length bytes in
    let rest = chunks_of chunk fuel (drop this_len bytes) in
    if length bytes == 0 then [] else take this_len bytes ∷ rest

module _ (chunk : ℕ) where
  pub hash_chunks-update_all :
      (fuel : ℕ) (ctx : Ctx) (bytes : List ℕ)
      → hash_chunks chunk fuel ctx bytes ≡ update_all ctx (chunks_of chunk fuel bytes)
  unfolding hash_chunks chunks_of update_all
  hash_chunks-update_all zero ctx bytes = refl
  hash_chunks-update_all (suc fuel) ctx bytes = elim (Bool-cases (length bytes == 0)) [
    | inl e ↦ rw e
    | inr e ↦ rw e (hash_chunks-update_all fuel _ _)
  ]

  -- With fuel for every byte the chunks are the whole payload.
  pub flatten-chunks_of :
      (fuel : ℕ) (bytes : List ℕ)
      → 0 < chunk
      → length bytes ≤ fuel
      → flatten (chunks_of chunk fuel bytes) ≡ bytes
  unfolding chunks_of
  flatten-chunks_of zero bytes pos h = sym (nil_of_length bytes (omega arith))
  flatten-chunks_of (suc fuel) bytes pos h = elim (Bool-cases (length bytes == 0)) [
    | inl e ↦ rw e (sym (nil_of_length bytes (ground arith)))
    | inr e ↦
        let n = if ltb chunk (length bytes) then chunk else length bytes in
        let fewer : length (drop n bytes) ≤ fuel = ground (arith, length-drop n bytes) in
        rw e (
          ap (λ t. take n bytes ++ t) (flatten-chunks_of fuel (drop n bytes) pos fewer)
          ∙ take-append-drop n bytes)
  ]
