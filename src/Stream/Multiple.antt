-- ===== src/Stream/Multiple.antt =====
-- `encryptStreamMultiple` and `decryptStreamMultiple` of services/encryption-stream.ts, without a
-- signal and without a progress callback, over the interface of MultiRecipientProcessor.
use Prim.Native.Nat.{bit_and}
use node_ecies_lib.Prelude.{
  ℕ, zero, suc, ◌*◌, Bool, true, false, not, ◌&&◌, Option, none, some, List, [], ◌∷◌, ◌++◌, length,
  ltb, ◌==◌, if◌then◌else◌,
}
use node_ecies_lib.Errors.{Result, ok, err}
use node_ecies_lib.Buffer.{Bytes, subarray, subarray_from}
use node_ecies_lib.Stream.Chunks.{
  StreamError, Yielded, DecryptedChunk, yields, thrown, buffer_overflow, chunk_sequence_error,
  invalid_private_key_length, recipient_required, max_recipients_exceeded,
  invalid_recipient_public_key_length, invalid_recipient_id_length,
}

pub record Recipient : Type 0 where
  pub id : Bytes
  pub public_key : Bytes

-- encryptChunk, of the data, the recipients, the index, the mark and the symmetric key, and
-- decryptChunk, of the chunk, the recipient's ID and the private key. `A` is the type of chunks and
-- `R` what one encryption draws at random.
pub record Processor (A R : Type 0) : Type 0 where
  pub encrypt_chunk : R → Bytes → List Recipient → ℕ → Bool → Bytes → Result A
  pub decrypt_chunk : Bytes → Bytes → Bytes → Result DecryptedChunk

-- The loop over the recipients: the first error, or none.
unfoldable pub check_recipients : ℕ → List Recipient → Option StreamError
check_recipients id_size [] = none
check_recipients id_size (r ∷ rs) =
    let rest = check_recipients id_size rs in
    if not (length r.public_key == 65) && not (length r.public_key == 33)
    then some invalid_recipient_public_key_length
    else if not (length r.id == id_size)
    then some invalid_recipient_id_length
    else rest

module _ {A R : Type 0} (processor : Processor A R) where
  module _ (rand : ℕ → R) (recipients : List Recipient) (symmetric_key : Bytes)
      (chunk_size : ℕ) where
    -- `while (buffer.length >= chunkSize)`, with as much fuel as the buffer is long, and then `next`,
    -- from the buffer and the chunk index that are left.
    unfoldable pub multiple_loop : ℕ → Bytes → ℕ → (Bytes → ℕ → Yielded A) → Yielded A
    unfolding subarray subarray_from
    multiple_loop zero buf index next = next buf index
    multiple_loop (suc fuel) buf index next =
        if ltb (length buf) chunk_size
        then next buf index
        else elim (processor.encrypt_chunk (rand index) (subarray buf 0 chunk_size) recipients index
            false symmetric_key) [
              | err e ↦ record { items = []; error = some (thrown e) }
              | ok c ↦ yields c (multiple_loop fuel (subarray_from buf chunk_size) (suc index) next)
            ]

    unfoldable pub multiple_last : Bytes → ℕ → Yielded A
    multiple_last buf index =
        if length buf == 0
        then record { items = []; error = none }
        else elim (processor.encrypt_chunk (rand index) buf recipients index true symmetric_key) [
          | err e ↦ record { items = []; error = some (thrown e) }
          | ok c ↦ record { items = c ∷ []; error = none }
        ]

    unfoldable pub multiple_source : List Bytes → Bytes → ℕ → Yielded A
    unfolding multiple_loop multiple_last
    multiple_source [] buf index = multiple_last buf index
    multiple_source (d ∷ source) buf index =
        if ltb (100 * 1024 * 1024) (length d)
        then record { items = []; error = some buffer_overflow }
        else multiple_loop (length (buf ++ d)) (buf ++ d) index
            (λ buf index. multiple_source source buf index)

    -- `id_size` is the byte length of the configured ID provider.
    unfoldable pub encrypt_stream_multiple : ℕ → List Bytes → Yielded A
    unfolding multiple_source check_recipients
    encrypt_stream_multiple id_size source =
        if length recipients == 0
        then record { items = []; error = some recipient_required }
        else if ltb 65535 (length recipients)
        then record { items = []; error = some max_recipients_exceeded }
        else elim (check_recipients id_size recipients) [
          | some e ↦ record { items = []; error = some e }
          | none ↦ multiple_source source [] 0
        ]

  module _ (recipient_id private_key : Bytes) where
    unfoldable pub multiple_decrypt_loop : List Bytes → ℕ → Yielded Bytes
    multiple_decrypt_loop [] expected = record { items = []; error = none }
    multiple_decrypt_loop (chunk ∷ source) expected =
        let rest = multiple_decrypt_loop source (suc expected) in
        elim (processor.decrypt_chunk chunk recipient_id private_key) [
          | err e ↦ record { items = []; error = some (thrown e) }
          | ok d ↦
              if not (d.index == expected)
              then record { items = []; error = some chunk_sequence_error }
              else if not (bit_and d.flags 1 == 0)
              then record { items = d.data_ ∷ []; error = none }
              else yields d.data_ rest
        ]

    unfoldable pub decrypt_stream_multiple : ℕ → List Bytes → Yielded Bytes
    unfolding multiple_decrypt_loop
    decrypt_stream_multiple id_size source =
        if not (length recipient_id == id_size)
        then record { items = []; error = some invalid_recipient_id_length }
        else if not (length private_key == 32)
        then record { items = []; error = some invalid_private_key_length }
        else multiple_decrypt_loop source 0
