-- ===== src/Transform.antt =====
-- transforms/eciesEncryptTransform.ts and transforms/eciesDecryptTransform.ts. A source is the list of
-- the chunks that are written; what is logged is left out. The block size is more than the overhead
-- and at least 1: the loops do not end for a capacity of 0 or less.
pub mod Chunking
pub mod RoundTrip
pub mod Delivered
mod Tests
use node_ecies_lib.Prelude.{
  ℕ, zero, suc, ◌-◌, Bool, not, ◌&&◌, Option, none, some, List, [], ◌∷◌, ◌++◌, length, ltb, ◌==◌,
  if◌then◌else◌,
}
use node_ecies_lib.Prelude.Int.{pos}
use node_ecies_lib.Errors.{Error, Result, ok, err}
use node_ecies_lib.Buffer.{Bytes, subarray, subarray_from}
use node_ecies_lib.Ecies.{Consts}
use node_ecies_lib.CryptoCore.{Node}
use node_ecies_lib.SingleRecipient.{basic}
use node_ecies_lib.Service.{
  Draw, encrypt_basic, decrypt_basic_with_header, compute_encrypted_length,
}

-- `Encryption failed: ...` of the encryption's `_transform`, and what is passed on as it is.
pub data TransformError : Type 0 where
  invalid_public_key : TransformError
  encryption_failed : TransformError
  passed_on : Error → TransformError

-- What a transform has pushed, and the error that ended it.
pub record Pushed : Type 0 where
  pub blocks : List Bytes
  pub error : Option TransformError

abbrev pub pushes : Bytes → Pushed → Pushed
pushes b p = record p { blocks = b ∷ p.blocks }

-- What both transforms do with `process`, which makes a block of a piece of the buffer and of the
-- number of the blocks so far. `wrap` is the error of `_transform`.
module _ (process : ℕ → Bytes → Result Bytes) (wrap : Error → TransformError) (size : ℕ) where
  -- `while (this.buffer.length >= ...)`, with fuel, and then `next` from what is left.
  unfoldable pub block_loop : ℕ → Bytes → ℕ → (Bytes → ℕ → Pushed) → Pushed
  unfolding subarray subarray_from
  block_loop zero buf count next = next buf count
  block_loop (suc fuel) buf count next =
      if ltb (length buf) size then next buf count else elim (process count (subarray buf 0 size)) [
        | err e ↦ record { blocks = []; error = some (wrap e) }
        | ok b ↦ pushes b (block_loop fuel (subarray_from buf size) (suc count) next)
      ]

  -- `_flush`
  unfoldable pub flush : Bytes → ℕ → Pushed
  flush buf count =
      if length buf == 0 then record { blocks = []; error = none } else elim (process count buf) [
        | err e ↦ record { blocks = []; error = some (passed_on e) }
        | ok b ↦ record { blocks = b ∷ []; error = none }
      ]

  -- `_transform` of every chunk, and `_flush`. An error ends the stream.
  unfoldable pub transform_all : List Bytes → Bytes → ℕ → Pushed
  unfolding block_loop flush
  transform_all [] buf count = flush buf count
  transform_all (chunk ∷ chunks) buf count =
      if length chunk == 0
      then transform_all chunks buf count
      else block_loop (length (buf ++ chunk)) (buf ++ chunk) count (transform_all chunks)

module _ (c : Consts) {S : Type 0} (node : Node S) where
  -- The constructor and the stream of EciesEncryptTransform.
  unfoldable pub encrypt_transform : (ℕ → Draw) → ℕ → Bytes → List Bytes → Pushed
  unfolding compute_encrypted_length encrypt_basic transform_all
  encrypt_transform draws block_size receiver_public_key chunks =
      if not (length receiver_public_key == 33) && not (length receiver_public_key == 65)
      then record { blocks = []; error = some invalid_public_key }
      else elim (compute_encrypted_length c (pos block_size) basic none) [
        | err e ↦ record { blocks = []; error = some (passed_on e) }
        | ok encrypted_length ↦
            transform_all
              (λ count block. encrypt_basic c node (draws count) receiver_public_key block [])
              (λ e. encryption_failed) (block_size - (encrypted_length - block_size)) chunks [] 0
      ]

  -- The stream of EciesDecryptionTransform.
  unfoldable pub decrypt_transform : (ℕ → Result ℕ) → Bytes → ℕ → List Bytes → Pushed
  unfolding decrypt_basic_with_header transform_all
  decrypt_transform ensure_type private_key block_size chunks =
      transform_all
        (λ count block. decrypt_basic_with_header c node ensure_type private_key block 0 none)
        passed_on block_size chunks [] 0
