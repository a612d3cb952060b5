-- ===== src/MultiRecipient/Parse.antt =====
-- `parseMultiEncryptedHeader` and `parseMultiEncryptedBuffer` of services/ecies/multi-recipient.ts.
-- A data length read from 56 bits is exact as a JavaScript number where it passes the check against
-- MAX_RAW_DATA_SIZE, which is below 2 ^ 53.
use Prim.Native.Nat.{bit_and}
use node_ecies_lib.Prelude.{
  ℕ, zero, suc, ◌+◌, ◌*◌, ◌/◌, ◌^◌, not, ◌||◌, some, List, [], ◌∷◌, length, ltb, leb, ◌==◌,
  if◌then◌else◌,
}
use node_ecies_lib.Prelude.Int.{pos}
use node_ecies_lib.Errors.{
  Result, ok, ◌>>=◌, ◌>>◌, throw_if, invalid_recipient_count, invalid_data_length, invalid_version,
  invalid_cipher_suite, invalid_encryption_type,
}
use node_ecies_lib.Buffer.{Bytes, subarray, subarray_from, read_uint_be}
use node_ecies_lib.Ecies.{Consts, IdProvider, PlatformId}
use node_ecies_lib.MultiRecipient.Header.{ParsedHeader, Message}

-- The loop that reads the IDs. `subarray` does not throw.
unfoldable pub read_ids : ℕ → Bytes → ℕ → ℕ → List Bytes
unfolding subarray
read_ids size data_ zero offset = []
read_ids size data_ (suc left) offset =
    subarray data_ offset (offset + size) ∷ read_ids size data_ left (offset + size)

-- The loop that reads the encrypted keys.
unfoldable pub read_keys : ℕ → Bytes → ℕ → ℕ → Result (List Bytes)
unfolding subarray
read_keys size data_ zero offset = ok []
read_keys size data_ (suc left) offset =
    throw_if (leb (length data_) offset) invalid_data_length
    >> (throw_if (ltb (length data_) (offset + size)) invalid_data_length
        >> (read_keys size data_ left (offset + size) >>= λ keys.
            ok (subarray data_ offset (offset + size) ∷ keys)))

-- recipientIds.map((idBuffer) => this.idProvider.fromBytes(idBuffer))
unfoldable pub from_bytes_all :
    {T : Type 0} → IdProvider T → List Bytes → Result (List (PlatformId T))
from_bytes_all ids [] = ok []
from_bytes_all ids (b ∷ bs) = do i ← ids.from_bytes b; rest ← from_bytes_all ids bs; ok (i ∷ rest)

module _ (c : Consts) {T : Type 0} (ids : IdProvider T) where
  -- From the recipient IDs on: `offset` is behind the recipient count.
  unfoldable pub parse_recipients : Bytes → Bytes → ℕ → ℕ → ℕ → ℕ → Result (ParsedHeader T)
  parse_recipients data_ ephemeral data_length recipient_count id_size offset = do
    let remaining = recipient_count * id_size + recipient_count * c.encrypted_key_size
    throw_if (ltb (length data_) (offset + remaining)) invalid_data_length
    let id_buffers = read_ids id_size data_ recipient_count offset
    let keys_offset = offset + recipient_count * id_size
    recipient_keys ← read_keys c.encrypted_key_size data_ recipient_count keys_offset
    recipient_ids ← from_bytes_all ids id_buffers
    ok (record {
      data_length = pos data_length;
      recipient_count = recipient_count;
      recipient_ids = recipient_ids;
      recipient_keys = recipient_keys;
      header_size = keys_offset + recipient_count * c.encrypted_key_size;
      ephemeral_public_key = some ephemeral;
    })

  -- From the data length on: `offset` is behind the ephemeral public key.
  unfoldable pub parse_lengths : Bytes → Bytes → ℕ → Result (ParsedHeader T)
  parse_lengths data_ ephemeral offset = do
    combined ← read_uint_be 8 data_ offset
    let after_length = offset + c.multiple_data_length_size
    let stored_id_size = combined / 2 ^ 56
    let data_length = bit_and combined 0x00ffffffffffffff
    throw_if (data_length == 0 || ltb c.max_raw_data_size data_length) invalid_data_length
    let id_size = if ltb 0 stored_id_size then stored_id_size else c.recipient_id_size
    recipient_count ← read_uint_be 2 data_ after_length
    throw_if (recipient_count == 0 || ltb c.max_recipients recipient_count) invalid_recipient_count
    parse_recipients data_ ephemeral data_length recipient_count id_size
        (after_length + c.recipient_count_size)

  unfoldable pub parse_header : Bytes → Result (ParsedHeader T)
  parse_header data_ = do
    throw_if (ltb (length data_) 46) invalid_data_length
    version ← read_uint_be 1 data_ 0
    let suite_at = c.version_size
    throw_if (not (version == c.version_v1)) invalid_version
    suite ← read_uint_be 1 data_ suite_at
    let type_at = suite_at + c.cipher_suite_size
    throw_if (not (suite == c.suite_secp256k1_aes256gcm_sha256)) invalid_cipher_suite
    type ← read_uint_be 1 data_ type_at
    let key_at = type_at + c.encryption_type_size
    throw_if (not (type == c.type_multiple)) invalid_encryption_type
    let ephemeral = subarray data_ key_at (key_at + c.public_key_length)
    parse_lengths data_ ephemeral (key_at + c.public_key_length)

  unfoldable pub parse_buffer : Bytes → Result (Message T)
  parse_buffer data_ = do
    header ← parse_header data_
    ok (record { header = header; encrypted_message = subarray_from data_ header.header_size })
