-- ===== src/Stream/Chunks.antt =====
-- `ChunkProcessor`, and `encryptStream` and `decryptStream` without a signal and without a progress
-- callback. A source is the list of what it yields. The ECIES service that both call is a parameter.
-- The chunk size is at least 1; the loop of the source does not end for a size of 0.
use Prim.Native.Nat.{bit_and}
use node_ecies_lib.Prelude.{
  ℕ, zero, suc, ◌*◌, Bool, true, false, not, ◌&&◌, Option, none, some, List, [], ◌∷◌, ◌++◌, length,
  ltb, ◌==◌, if◌then◌else◌,
}
use node_ecies_lib.Errors.{Error, Result, ok, err, ◌>>=◌}
use node_ecies_lib.Buffer.{Bytes, alloc, subarray, subarray_from, read_uint_be, write_uint_be}

pub data StreamError : Type 0 where
  invalid_public_key_length : StreamError
  invalid_private_key_length : StreamError
  buffer_overflow : StreamError
  chunk_sequence_error : StreamError
  recipient_required : StreamError
  max_recipients_exceeded : StreamError
  invalid_recipient_public_key_length : StreamError
  invalid_recipient_id_length : StreamError
  thrown : Error → StreamError

-- What a generator has yielded, and what it threw.
pub record Yielded (A : Type 0) : Type 0 where
  pub items : List A
  pub error : Option StreamError

-- encryptWithLength and decryptWithLengthAndHeader of the ECIES service. `R` is what one encryption
-- draws at random.
pub record EciesService (R : Type 0) : Type 0 where
  pub encrypt_with_length : R → Bytes → Bytes → Result Bytes
  pub decrypt_with_length_and_header : Bytes → Bytes → Result Bytes

pub record Metadata : Type 0 where
  pub original_size : ℕ
  pub encrypted_size : ℕ

pub record EncryptedChunk : Type 0 where
  pub index : ℕ
  pub data_ : Bytes
  pub is_last : Bool
  pub metadata : Option Metadata

pub record DecryptedChunk : Type 0 where
  pub data_ : Bytes
  pub index : ℕ
  pub flags : ℕ

abbrev pub yields : {A : Type 0} → A → Yielded A → Yielded A
yields a y = record y { items = a ∷ y.items }

-- `lastYieldedChunk.isLast = true`, in the objects that were yielded.
unfoldable pub mark_last : List EncryptedChunk → List EncryptedChunk
mark_last [] = []
mark_last (c ∷ []) = record c { is_last = true } ∷ []
mark_last (c ∷ d ∷ cs) = c ∷ mark_last (d ∷ cs)

module _ {R : Type 0} (ecies : EciesService R) where
  unfoldable pub encrypt_chunk : R → Bytes → Bytes → ℕ → Bool → Bool → Result EncryptedChunk
  unfolding write_uint_be
  encrypt_chunk r data_ public_key chunk_index is_last include_checksums = do
    encrypted ← ecies.encrypt_with_length r public_key data_
    indexed ← write_uint_be 4 chunk_index (alloc 5) 0
    header ← write_uint_be 1 (if is_last then 1 else 0) indexed 4
    ok (record {
      index = chunk_index;
      data_ = header ++ encrypted;
      is_last = is_last;
      metadata =
          if include_checksums
          then some (record { original_size = length data_; encrypted_size = length encrypted })
          else none;
    })

  unfoldable pub decrypt_chunk : Bytes → Bytes → Result DecryptedChunk
  unfolding read_uint_be subarray_from
  decrypt_chunk chunk_data private_key = do
    index ← read_uint_be 4 chunk_data 0
    flags ← read_uint_be 1 chunk_data 4
    decrypted ← ecies.decrypt_with_length_and_header private_key (subarray_from chunk_data 5)
    ok (record { data_ = decrypted; index = index; flags = flags })

  module _ (rand : ℕ → R) (public_key : Bytes) (chunk_size : ℕ) (include_checksums : Bool) where
    -- `while (buffer.length >= chunkSize)`, with as much fuel as the buffer is long, and then `next`,
    -- from the buffer and the chunk index that are left.
    unfoldable pub chunk_loop :
        ℕ → Bytes → ℕ → (Bytes → ℕ → Yielded EncryptedChunk) → Yielded EncryptedChunk
    unfolding encrypt_chunk subarray subarray_from
    chunk_loop zero buf index next = next buf index
    chunk_loop (suc fuel) buf index next =
        if ltb (length buf) chunk_size
        then next buf index
        else elim (encrypt_chunk (rand index) (subarray buf 0 chunk_size) public_key index false
            include_checksums) [
              | err e ↦ record { items = []; error = some (thrown e) }
              | ok c ↦ yields c (chunk_loop fuel (subarray_from buf chunk_size) (suc index) next)
            ]

    -- What is left is the last chunk. When nothing is left, the chunk that was yielded last is
    -- marked by its field only: `mark_last` below.
    unfoldable pub last_chunk : Bytes → ℕ → Yielded EncryptedChunk
    unfolding encrypt_chunk
    last_chunk buf index =
        if length buf == 0
        then record { items = []; error = none }
        else elim (encrypt_chunk (rand index) buf public_key index true include_checksums) [
          | err e ↦ record { items = []; error = some (thrown e) }
          | ok c ↦ record { items = c ∷ []; error = none }
        ]

    -- `for await (const data of source)`
    unfoldable pub source_loop : List Bytes → Bytes → ℕ → Yielded EncryptedChunk
    unfolding chunk_loop last_chunk
    source_loop [] buf index = last_chunk buf index
    source_loop (d ∷ source) buf index =
        if ltb (100 * 1024 * 1024) (length d)
        then record { items = []; error = some buffer_overflow }
        else chunk_loop (length (buf ++ d)) (buf ++ d) index
            (λ buf index. source_loop source buf index)

    -- The chunks as they are when the generator has ended.
    unfoldable pub encrypt_stream : List Bytes → Yielded EncryptedChunk
    unfolding source_loop mark_last
    encrypt_stream source =
        if not (length public_key == 65) && not (length public_key == 33)
        then record { items = []; error = some invalid_public_key_length }
        else let y = source_loop source [] 0 in
          elim y.error [ some e ↦ y | none ↦ record y { items = mark_last y.items } ]

  module _ (private_key : Bytes) where
    -- `for await (const chunkData of source)`
    unfoldable pub decrypt_loop : List Bytes → ℕ → Yielded Bytes
    unfolding decrypt_chunk
    decrypt_loop [] expected = record { items = []; error = none }
    decrypt_loop (chunk ∷ source) expected =
        let rest = decrypt_loop source (suc expected) in
        elim (decrypt_chunk chunk private_key) [
          | err e ↦ record { items = []; error = some (thrown e) }
          | ok d ↦
              if not (d.index == expected)
              then record { items = []; error = some chunk_sequence_error }
              else if not (bit_and d.flags 1 == 0)
              then record { items = d.data_ ∷ []; error = none }
              else yields d.data_ rest
        ]

    unfoldable pub decrypt_stream : List Bytes → Yielded Bytes
    unfolding decrypt_loop
    decrypt_stream source =
        if not (length private_key == 32)
        then record { items = []; error = some invalid_private_key_length }
        else decrypt_loop source 0
