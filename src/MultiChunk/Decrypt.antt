-- ===== src/MultiChunk/Decrypt.antt =====
-- `decryptChunk` of services/multi-recipient-processor.ts, and its `encryptKey` and `decryptKey`.
use node_ecies_lib.Prelude.{
  ℕ, zero, suc, ◌+◌, ◌-◌, not, Option, none, some, [], ◌∷◌, length, ltb, ◌==◌, if◌then◌else◌,
}
use node_ecies_lib.Errors.{
  Result, ok, err, ◌>>=◌, ◌>>◌, throw_if, invalid_data_length, invalid_version, recipient_not_found,
  invalid_signature,
}
use node_ecies_lib.Buffer.{Bytes, concat, subarray, subarray_from, equals, read_uint_be}
use node_ecies_lib.Ecies.{Consts}
use node_ecies_lib.CryptoCore.{Node, verify}
use node_ecies_lib.MultiRecipient.Keys.{Crypto, encrypt_key, decrypt_key}
use node_ecies_lib.MultiChunk.{
  ChunkHeader, ChunkDraw, magic, version, header_size, key_size_bytes, prefixed_key,
}

-- `data.length - 16` as a bound of `subarray`, which counts a negative bound from the end.
unfoldable pub tag_start : ℕ → ℕ
tag_start size = if ltb size 16 then size + size - 16 else size - 16

module _ (c : Consts) (crypto : Crypto) where
  -- The loop over the recipient headers: the symmetric key, if one was for the recipient, and the
  -- offset behind them.
  unfoldable pub find_key :
      Bytes → Bytes → Bytes → Bytes → ℕ → ℕ → Option Bytes → Result (Option Bytes × ℕ)
  unfolding subarray read_uint_be equals decrypt_key
  find_key data_ ephemeral_public recipient_id private_key zero offset found = ok (found, offset)
  find_key data_ ephemeral_public recipient_id private_key (suc left) offset found = do
    let size_at = offset + c.recipient_id_size
    let key_at = size_at + key_size_bytes
    let id = subarray data_ offset size_at
    key_size ← read_uint_be 2 data_ size_at
    let encrypted_key = subarray data_ key_at (key_at + key_size)
    symmetric_key ←
        if equals id recipient_id
        then (decrypt_key c crypto private_key encrypted_key ephemeral_public (some id) >>= λ key.
            ok (some key))
        else ok found
    find_key data_ ephemeral_public recipient_id private_key left (key_at + key_size) symmetric_key

  -- From the IV on: `offset` is behind the recipient headers.
  unfoldable pub decrypt_data : Bytes → Option Bytes → ℕ → ℕ → Result Bytes
  unfolding subarray subarray_from tag_start
  decrypt_data data_ none offset encrypted_size = err recipient_not_found
  decrypt_data data_ (some symmetric_key) offset encrypted_size =
      let iv = subarray data_ offset (offset + 12) in
      let with_tag = subarray data_ (offset + 12) (offset + 12 + encrypted_size) in
      let auth_tag = subarray_from with_tag (tag_start (length with_tag)) in
      let encrypted = subarray with_tag 0 (tag_start (length with_tag)) in
      crypto.decipher symmetric_key iv auth_tag (some (subarray data_ 0 offset)) encrypted

  module _ {S : Type 0} (node : Node S) where
    unfoldable pub check_sender : Option Bytes → Bytes → Result Bytes
    unfolding verify subarray subarray_from
    check_sender none message = ok message
    check_sender (some sender_public_key) message = do
      throw_if (ltb (length message) 64) invalid_signature
      let signature = subarray message 0 64
      let content = subarray_from message 64
      throw_if (not (verify c node sender_public_key content signature)) invalid_signature
      ok content

    unfoldable pub decrypt_chunk :
        Bytes → Bytes → Bytes → Option Bytes → Result (Bytes × ChunkHeader)
    unfolding read_uint_be subarray find_key decrypt_data check_sender
    decrypt_chunk chunk_data recipient_id private_key sender = do
      throw_if (ltb (length chunk_data) header_size) invalid_data_length
      read_magic ← read_uint_be 4 chunk_data 0
      throw_if (not (read_magic == magic)) invalid_data_length
      read_version ← read_uint_be 2 chunk_data 4
      throw_if (not (read_version == version)) invalid_version
      recipient_count ← read_uint_be 2 chunk_data 6
      chunk_index ← read_uint_be 4 chunk_data 8
      original_size ← read_uint_be 4 chunk_data 12
      encrypted_size ← read_uint_be 4 chunk_data 16
      flags ← read_uint_be 1 chunk_data 20
      found ←
          find_key chunk_data (subarray chunk_data 21 54) recipient_id private_key recipient_count
            header_size none
      message ← decrypt_data chunk_data found.0 found.1 encrypted_size
      content ← check_sender sender message
      ok (
        content,
        record {
          chunk_index = chunk_index;
          flags = flags;
          recipient_count = recipient_count;
          magic = read_magic;
          version = read_version;
          original_size = original_size;
          encrypted_size = encrypted_size;
        },
      )

  -- `encryptKey` and `decryptKey`: the ephemeral public key in front of the encrypted key.
  unfoldable pub encrypt_simple_key : ChunkDraw → Bytes → Bytes → Result Bytes
  unfolding prefixed_key encrypt_key
  encrypt_simple_key r recipient_public_key symmetric_key = do
    key ←
        encrypt_key c crypto (r.key_ivs 0) recipient_public_key symmetric_key r.ephemeral_private
          (some [])
    ok (concat (prefixed_key c r.ephemeral_public ∷ key ∷ []))

  unfoldable pub decrypt_simple_key : Bytes → Bytes → Result Bytes
  unfolding subarray subarray_from decrypt_key
  decrypt_simple_key private_key encrypted_data =
      decrypt_key c crypto private_key (subarray_from encrypted_data 33)
        (subarray encrypted_data 0 33) (some [])
