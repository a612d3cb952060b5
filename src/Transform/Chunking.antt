-- ===== src/Transform/Chunking.antt =====
-- What the transforms push does not depend on how the source is cut into chunks.
use node_ecies_lib.Prelude.{
  ℕ, zero, suc, ◌+◌, ◌-◌, ◌<◌, ◌≤◌, ◌≡◌, refl, sym, ap, ◌∙◌, false, Bool-cases, none, inl, inr,
  List, [], ◌∷◌, ◌++◌, length, length-append, length-drop, append_assoc, append-nil, take, drop,
  ltb, ltb→lt, le→ltb, lt→ltb, pos→==0, arith,
}
use node_ecies_lib.Errors.{Error, Result, Result-cases}
use node_ecies_lib.Buffer.{Bytes, concat, subarray, subarray_from}
use node_ecies_lib.Ecies.{Consts}
use node_ecies_lib.CryptoCore.{Node}
use node_ecies_lib.Service.{
  Draw, encrypt_basic, decrypt_basic_with_header, compute_encrypted_length,
}
use node_ecies_lib.Transform.{
  TransformError, encryption_failed, passed_on, Pushed, block_loop, flush, transform_all,
  encrypt_transform, decrypt_transform,
}

pub at_least : (a b : ℕ) → ltb a b ≡ false → b ≤ a
at_least a b e = ground arith

take-in : (n : ℕ) (xs ys : Bytes) → n ≤ length xs → take n (xs ++ ys) ≡ take n xs
take-in zero xs ys h = refl
take-in (suc n) [] ys h = absurd (omega arith)
take-in (suc n) (x ∷ xs) ys h = ap (λ (t : Bytes). x ∷ t) (take-in n xs ys (omega arith))

drop-in : (n : ℕ) (xs ys : Bytes) → n ≤ length xs → drop n (xs ++ ys) ≡ drop n xs ++ ys
drop-in zero xs ys h = refl
drop-in (suc n) [] ys h = absurd (omega arith)
drop-in (suc n) (x ∷ xs) ys h = drop-in n xs ys (omega arith)

module _ (process : ℕ → Bytes → Result Bytes) (wrap : Error → TransformError) (size : ℕ)
    (positive : 0 < size) where
  -- The loop over a buffer, and then over the rest of it, is the loop over both.
  block_loop-append :
      (rest : Bytes) (next after : Bytes → ℕ → Pushed)
      → ((buf : Bytes) (count more : ℕ)
          → length buf < size
          → length (buf ++ rest) ≤ more
          → next buf count ≡ block_loop process wrap size more (buf ++ rest) count after)
      → (fuel more : ℕ) (buf : Bytes) (count : ℕ) → length buf ≤ fuel
      → length (buf ++ rest) ≤ more
      → block_loop process wrap size fuel buf count next
        ≡ block_loop process wrap size more (buf ++ rest) count after
  unfolding block_loop subarray subarray_from
  block_loop-append rest next after ends zero more buf count f g =
      ends buf count more (omega arith) g
  block_loop-append rest next after ends (suc fuel) zero buf count f g =
      rw (lt→ltb (length buf) size (omega (arith, length-append buf rest)))
        (ends buf count zero (omega (arith, length-append buf rest)) g)
  block_loop-append rest next after ends (suc fuel) (suc more) buf count f g =
      elim (Bool-cases (ltb (length buf) size)) [
        | inl e ↦ rw e (ends buf count (suc more) (ltb→lt (length buf) size e) g)
        | inr e ↦
            let enough = at_least (length buf) size e in
            let joined = length-append buf rest in
            let left = drop size buf in
            let shorter = length-drop size buf in
            let same =
              block_loop-append rest next after ends fuel more left (suc count)
                (omega (arith, shorter)) (omega (arith, shorter, length-append left rest)) in
            let same_piece = take-in (size - 0) buf rest (omega (arith, enough)) in
            let longer = le→ltb (length (buf ++ rest)) size (omega arith) in
            elim (Result-cases (process count (subarray buf 0 size))) [
              | inl (b, made) ↦
                  rw (e, longer, same_piece, made, drop-in size buf rest enough, same) refl
              | inr (thrown_error, failed) ↦ rw (e, longer, same_piece, failed) refl
            ]
      ]

  pub transform_all-loop :
      (chunks : List Bytes) (buf : Bytes) (count more : ℕ)
      → length buf < size
      → length (buf ++ concat chunks) ≤ more
      → transform_all process wrap size chunks buf count
        ≡ block_loop process wrap size more (buf ++ concat chunks) count (flush process wrap size)
  unfolding transform_all block_loop
  transform_all-loop [] buf count zero short g =
      ap (λ (b : Bytes). flush process wrap size b count) (sym (append-nil buf))
  transform_all-loop [] buf count (suc more) short g =
      rw (append-nil buf, lt→ltb (length buf) size short) refl
  transform_all-loop ([] ∷ chunks) buf count more short g =
      transform_all-loop chunks buf count more short g
  transform_all-loop ((b ∷ bs) ∷ chunks) buf count more short g =
      let joined = append_assoc buf (b ∷ bs) (concat chunks) in
      rw (pos→==0 (length (b ∷ bs)) (omega arith)) (
        block_loop-append (concat chunks) (transform_all process wrap size chunks)
          (flush process wrap size)
          (λ buf count more short g. transform_all-loop chunks buf count more short g)
          (length (buf ++ (b ∷ bs))) more (buf ++ (b ∷ bs)) count (omega arith)
          (omega (arith, ap length joined))
        ∙ ap (λ (x : Bytes). block_loop process wrap size more x count (flush process wrap size))
            joined)

  -- What is pushed and the error are those of the source in one chunk.
  pub transform_all-concat :
      (chunks : List Bytes)
      → transform_all process wrap size chunks [] 0
        ≡ transform_all process wrap size (concat chunks ∷ []) [] 0
  transform_all-concat chunks =
      transform_all-loop chunks [] 0 (length (concat chunks)) positive (omega arith)
      ∙ sym (
          transform_all-loop (concat chunks ∷ []) [] 0 (length (concat chunks)) positive
            (omega (arith, ap length (append-nil (concat chunks))))
          ∙ ap
              (λ (x : Bytes).
                block_loop process wrap size (length (concat chunks)) x 0 (flush process wrap size))
              (append-nil (concat chunks)))

-- For a block size over the overhead, what each transform pushes, and the error that ends it, are
-- those of the source in one chunk, however the source is cut.
pub transforms-concat :
    (c : Consts) {S : Type 0} (node : Node S) (draws : ℕ → Draw) (receiver_public_key : Bytes)
    (ensure_type : ℕ → Result ℕ) (private_key : Bytes) (block_size : ℕ) (chunks : List Bytes)
    → c.basic_fixed_overhead_size < block_size
    → (encrypt_transform c node draws block_size receiver_public_key chunks
        ≡ encrypt_transform c node draws block_size receiver_public_key (concat chunks ∷ []))
      × (decrypt_transform c node ensure_type private_key block_size chunks
          ≡ decrypt_transform c node ensure_type private_key block_size (concat chunks ∷ []))
unfolding encrypt_transform compute_encrypted_length decrypt_transform
transforms-concat c node draws receiver_public_key ensure_type private_key block_size chunks fits =
    let encrypted = block_size + c.basic_fixed_overhead_size - block_size in
    (
      rw
          (transform_all-concat
            (λ count block. encrypt_basic c node (draws count) receiver_public_key block [])
            (λ e. encryption_failed) (block_size - encrypted) (omega arith) chunks)
          refl,
      transform_all-concat
          (λ count block. decrypt_basic_with_header c node ensure_type private_key block 0 none)
          passed_on block_size (omega arith) chunks,
    )
