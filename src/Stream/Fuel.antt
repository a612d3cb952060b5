-- ===== src/Stream/Fuel.antt =====
-- The loop of `encryptStream` over the buffer ends.
use node_ecies_lib.Prelude.{
  ℕ, zero, suc, ◌-◌, ◌<◌, ◌≤◌, ◌≡◌, refl, Bool, false, Bool-cases, inl, inr, length, length-drop,
  ltb, lt→ltb, arith,
}
use node_ecies_lib.Errors.{Result-cases}
use node_ecies_lib.Buffer.{Bytes, subarray, subarray_from}
use node_ecies_lib.Stream.Chunks.{EciesService, Yielded, EncryptedChunk, encrypt_chunk, chunk_loop}

at_least : (a b : ℕ) → ltb a b ≡ false → b ≤ a
at_least a b e = ground arith

module _ {R : Type 0} (ecies : EciesService R) (rand : ℕ → R) (public_key : Bytes) (chunk_size : ℕ)
    (checksums : Bool) (positive : 0 < chunk_size) (next : Bytes → ℕ → Yielded EncryptedChunk) where
  -- Whatever fuel the loop has, once it has as much as the buffer is long, it yields the same and
  -- hands over the same rest: it never runs out.
  pub chunk_loop_fuel :
      (fuel more : ℕ) (buf : Bytes) (index : ℕ)
      → length buf ≤ fuel
      → length buf ≤ more
      → chunk_loop ecies rand public_key chunk_size checksums fuel buf index next
        ≡ chunk_loop ecies rand public_key chunk_size checksums more buf index next
  unfolding chunk_loop subarray_from
  chunk_loop_fuel zero zero buf index h k = refl
  chunk_loop_fuel zero (suc more) buf index h k =
      rw (lt→ltb (length buf) chunk_size (omega arith)) refl
  chunk_loop_fuel (suc fuel) zero buf index h k =
      rw (lt→ltb (length buf) chunk_size (omega arith)) refl
  chunk_loop_fuel (suc fuel) (suc more) buf index h k =
      elim (Bool-cases (ltb (length buf) chunk_size)) [
        | inl e ↦ rw e refl
        | inr e ↦
            let enough = at_least (length buf) chunk_size e in
            let rest = subarray_from buf chunk_size in
            let shorter : length rest ≡ length buf - chunk_size = length-drop chunk_size buf in
            let same =
              chunk_loop_fuel fuel more rest (suc index) (omega (arith, shorter))
                (omega (arith, shorter)) in
            elim (Result-cases (
              encrypt_chunk ecies (rand index) (subarray buf 0 chunk_size) public_key index false
                checksums)) [
                  | inl (c, made) ↦ rw (e, made, same) refl
                  | inr (thrown_error, failed) ↦ rw (e, failed) refl
                ]
      ]
