-- ===== src/MultiChunk.antt =====
-- `encryptChunk` of services/multi-recipient-processor.ts: one chunk of a stream for several
-- recipients. Chunk indices count from 0. The cipher's `update` and `final` are one ciphertext.
pub mod Decrypt
pub mod Written
pub mod Sealed
pub mod Lookup
pub mod RoundTrip
pub mod Senders
mod Tests
use node_ecies_lib.Prelude.{
  ℕ, zero, suc, ◌+◌, ◌%◌, Bool, true, false, not, Option, none, some, List, [], ◌∷◌, length, ltb,
  ◌==◌, if◌then◌else◌,
}
use node_ecies_lib.Errors.{
  Error, Result, ok, err, ◌>>=◌, ◌>>◌, throw_if, invalid_data_length, file_size_too_large,
}
use node_ecies_lib.Buffer.{Bytes, alloc, concat, subarray, write_uint_be}
use node_ecies_lib.Ecies.{Consts}
use node_ecies_lib.CryptoCore.{Node, sign}
use node_ecies_lib.MultiRecipient.Keys.{Crypto, encrypt_key}
use node_ecies_lib.Stream.Multiple.{Recipient}
use node_ecies_lib.VoteLog.Entry.{copy_to}

-- getMultiRecipientConstants
abbrev pub magic : ℕ
magic = 0x45434945

abbrev pub version : ℕ
version = 1

abbrev pub header_size : ℕ
header_size = 64

abbrev pub key_size_bytes : ℕ
key_size_bytes = 2

abbrev pub flag_is_last : ℕ
flag_is_last = 1

-- IMultiRecipientChunkHeader
pub record ChunkHeader : Type 0 where
  pub chunk_index : ℕ
  pub flags : ℕ
  pub recipient_count : ℕ
  pub magic : ℕ
  pub version : ℕ
  pub original_size : ℕ
  pub encrypted_size : ℕ

-- IMultiRecipientChunk
pub record MultiRecipientChunk : Type 0 where
  pub header : ChunkHeader
  pub data_ : Bytes

pub record RecipientHeader : Type 0 where
  pub id : Bytes
  pub encrypted_key : Bytes

-- What one call draws at random: the ephemeral keys, the IV of each recipient's key, and the IV of
-- the data.
pub record ChunkDraw : Type 0 where
  pub ephemeral_private : Bytes
  pub ephemeral_public : Bytes
  pub key_ivs : ℕ → Bytes
  pub iv : Bytes

-- The fixed part of the header.
unfoldable pub write_fixed : Bytes → ChunkHeader → Bytes → Result Bytes
unfolding write_uint_be copy_to
write_fixed chunk h ephemeral_public = do
  chunk ← write_uint_be 4 h.magic chunk 0
  chunk ← write_uint_be 2 h.version chunk 4
  chunk ← write_uint_be 2 h.recipient_count chunk 6
  chunk ← write_uint_be 4 h.chunk_index chunk 8
  chunk ← write_uint_be 4 h.original_size chunk 12
  chunk ← write_uint_be 4 h.encrypted_size chunk 16
  chunk ← write_uint_be 1 h.flags chunk 20
  ok (copy_to chunk 21 ephemeral_public)

module _ (c : Consts) where
  unfoldable pub prefixed_key : Bytes → Bytes
  prefixed_key key =
      if length key == c.raw_public_key_length
      then concat ((c.public_key_magic % 256 ∷ []) ∷ key ∷ [])
      else key

  -- The loop that adds up the sizes.
  unfoldable pub recipient_headers_size : ℕ → List RecipientHeader → ℕ
  recipient_headers_size size [] = size
  recipient_headers_size size (h ∷ hs) =
      recipient_headers_size
        (size + (c.recipient_id_size + key_size_bytes + length h.encrypted_key)) hs

  -- The loop that writes the recipient headers: the chunk, and the offset behind them.
  unfoldable pub write_recipients : List RecipientHeader → Bytes → ℕ → Result (Bytes × ℕ)
  unfolding copy_to write_uint_be
  write_recipients [] chunk offset = ok (chunk, offset)
  write_recipients (h ∷ hs) chunk offset = do
    let size_at = offset + c.recipient_id_size
    let key_at = size_at + key_size_bytes
    sized ← write_uint_be 2 (length h.encrypted_key) (copy_to chunk offset h.id) size_at
    write_recipients hs (copy_to sized key_at h.encrypted_key) (key_at + length h.encrypted_key)

  module _ (crypto : Crypto) where
    -- The loop that encrypts the symmetric key, with the ID as additional data.
    unfoldable pub encrypt_keys :
        ChunkDraw → Bytes → List Recipient → ℕ → Result (List RecipientHeader)
    unfolding encrypt_key
    encrypt_keys r symmetric_key [] i = ok []
    encrypt_keys r symmetric_key (recipient ∷ recipients) i = do
      key ←
          encrypt_key c crypto (r.key_ivs i) recipient.public_key symmetric_key r.ephemeral_private
            (some recipient.id)
      rest ← encrypt_keys r symmetric_key recipients (suc i)
      ok (record { id = recipient.id; encrypted_key = key } ∷ rest)

    module _ {S : Type 0} (node : Node S) where
      -- Sign-then-Encrypt
      unfoldable pub signed_data : Option Bytes → Bytes → Result Bytes
      unfolding sign
      signed_data none data_ = ok data_
      signed_data (some sender_private_key) data_ = do
        signature ← sign c node sender_private_key data_
        ok (concat (signature ∷ data_ ∷ []))

      unfoldable pub encrypt_chunk :
          ChunkDraw
          → Bytes
          → List Recipient
          → ℕ
          → Bool
          → Bytes
          → Option Bytes
          → Result MultiRecipientChunk
      unfolding signed_data prefixed_key encrypt_keys recipient_headers_size write_fixed
          write_recipients subarray copy_to
      encrypt_chunk r data_ recipients chunk_index is_last symmetric_key sender = do
        throw_if (ltb 0xffffffff chunk_index) invalid_data_length
        to_encrypt ← signed_data sender data_
        throw_if (ltb c.max_raw_data_size (length to_encrypt)) file_size_too_large
        let ephemeral_public = prefixed_key r.ephemeral_public
        headers ← encrypt_keys r symmetric_key recipients 0
        let encrypted_size = length to_encrypt + 16
        let total_size = header_size + recipient_headers_size 0 headers + 12 + encrypted_size
        let header : ChunkHeader = record {
          chunk_index = chunk_index;
          flags = if is_last then flag_is_last else 0;
          recipient_count = length recipients;
          magic = magic;
          version = version;
          original_size = length to_encrypt;
          encrypted_size = encrypted_size;
        }
        fixed ← write_fixed (alloc total_size) header ephemeral_public
        written ← write_recipients headers fixed header_size
        let offset = written.1
        let sealed =
            crypto.cipher symmetric_key r.iv (some (subarray written.0 0 offset)) to_encrypt
        let with_iv = copy_to written.0 offset r.iv
        let with_data = copy_to with_iv (offset + 12) sealed.0
        ok (record {
          header = header;
          data_ = copy_to with_data (offset + 12 + length sealed.0) sealed.1;
        })
