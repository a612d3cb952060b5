-- ===== src/MultiRecipient/Encrypt.antt =====
-- `encryptMultiple` and `decryptMultipleECIEForRecipient` of services/ecies/multi-recipient.ts. The
-- cipher's `update` and `final` are one ciphertext.
use node_ecies_lib.Prelude.{
  ℕ, suc, ◌+◌, min, Bool, false, not, Option, none, some, List, [], ◌∷◌, length, map, get_elem?,
  ltb, ◌==◌, if◌then◌else◌,
}
use node_ecies_lib.Prelude.Int.{pos, eq_ℕ, sub_ℕ}
use node_ecies_lib.Errors.{
  Result, ok, err, ◌>>=◌, ◌>>◌, throw_if, too_many_recipients, file_size_too_large,
  invalid_multiple_recipient_id_size, message_length_mismatch, recipient_not_found,
  private_key_not_loaded, invalid_ephemeral_public_key, invalid_data_length, invalid_signature,
  type_error,
}
use node_ecies_lib.Buffer.{Bytes, concat, subarray, subarray_from, equals}
use node_ecies_lib.Ecies.{Consts, IdProvider, PlatformId, buffer, uint8_array, other, id_bytes}
use node_ecies_lib.CryptoCore.{Node, verify}
use node_ecies_lib.MultiRecipient.Header.{ParsedHeader, Message, or_throw, overhead, build_header}
use node_ecies_lib.MultiRecipient.Keys.{Crypto, encrypt_key, decrypt_key}
use node_ecies_lib.MultiChunk.{ChunkDraw, prefixed_key, signed_data}
use node_ecies_lib.MultiChunk.Decrypt.{check_sender}

-- IMember, as far as it is used.
pub record Member (T : Type 0) : Type 0 where
  pub id : PlatformId T
  pub public_key : Bytes
  pub private_key : Option Bytes

-- The comparison in `findIndex`.
unfoldable pub same_id : {T : Type 0} → IdProvider T → PlatformId T → PlatformId T → Bool
unfolding equals
same_id ids (other a) b = equals (ids.to_bytes (other a)) (ids.to_bytes b)
same_id ids (buffer a) (other b) = equals (ids.to_bytes (buffer a)) (ids.to_bytes (other b))
same_id ids (uint8_array a) (other b) =
    equals (ids.to_bytes (uint8_array a)) (ids.to_bytes (other b))
same_id ids (buffer a) (buffer b) = equals a b
same_id ids (buffer a) (uint8_array b) = equals a b
same_id ids (uint8_array a) (buffer b) = equals a b
same_id ids (uint8_array a) (uint8_array b) = equals a b

-- The same comparison in the overload that takes the parts of a message, which has its own copy.
unfoldable pub same_parts_id : {T : Type 0} → IdProvider T → PlatformId T → PlatformId T → Bool
unfolding equals
same_parts_id ids (other a) b = equals (ids.to_bytes (other a)) (ids.to_bytes b)
same_parts_id ids (buffer a) (other b) = equals (ids.to_bytes (buffer a)) (ids.to_bytes (other b))
same_parts_id ids (uint8_array a) (other b) =
    equals (ids.to_bytes (uint8_array a)) (ids.to_bytes (other b))
same_parts_id ids (buffer a) (buffer b) = equals a b
same_parts_id ids (buffer a) (uint8_array b) = equals a b
same_parts_id ids (uint8_array a) (buffer b) = equals a b
same_parts_id ids (uint8_array a) (uint8_array b) = equals a b

-- `findIndex`, where -1 is `none`
unfoldable pub find_index : {A : Type 0} → (A → Bool) → List A → Option ℕ
find_index p [] = none
find_index p (a ∷ as_) =
    let rest = find_index p as_ in
    if p a then some 0 else elim rest [ none ↦ none | some i ↦ some (suc i) ]

module _ (c : Consts) {T : Type 0} (ids : IdProvider T) (crypto : Crypto) where
  -- `recipients.map(...)`: the encrypted keys. `i` counts what randomBytes is called for.
  unfoldable pub encrypt_for_all : ChunkDraw → Bytes → List (Member T) → ℕ → Result (List Bytes)
  unfolding id_bytes encrypt_key
  encrypt_for_all r symmetric_key [] i = ok []
  encrypt_for_all r symmetric_key (member ∷ members) i = do
    let bytes = id_bytes ids member.id
    throw_if (not (length bytes == c.recipient_id_size)) invalid_multiple_recipient_id_size
    key ←
        encrypt_key c crypto (r.key_ivs i) member.public_key symmetric_key r.ephemeral_private
          (some bytes)
    rest ← encrypt_for_all r symmetric_key members (suc i)
    ok (key ∷ rest)

  module _ {S : Type 0} (node : Node S) where
    unfoldable pub encrypt_multiple :
        ChunkDraw
        → Bytes
        → List (Member T)
        → Bytes
        → Option Bytes
        → Option Bytes
        → Result (Message T)
    unfolding signed_data prefixed_key encrypt_for_all overhead build_header
    encrypt_multiple r symmetric_key recipients message preamble sender = do
      throw_if (ltb 65535 (length recipients)) too_many_recipients
      to_encrypt ← signed_data c crypto node sender message
      throw_if (ltb (min c.max_raw_data_size c.multiple_max_data_size) (length to_encrypt))
          file_size_too_large
      recipient_keys ← encrypt_for_all r symmetric_key recipients 0
      header_size ← overhead c (length recipients) false (some recipient_keys)
      let header : ParsedHeader T = record {
        data_length = pos (length to_encrypt);
        recipient_count = length recipients;
        recipient_ids = map (λ m. m.id) recipients;
        recipient_keys = recipient_keys;
        header_size = header_size;
        ephemeral_public_key = some (prefixed_key c r.ephemeral_public);
      }
      header_bytes ← build_header c ids header
      let sealed = crypto.cipher symmetric_key r.iv (some header_bytes) to_encrypt
      throw_if (not (length sealed.0 == length to_encrypt)) message_length_mismatch
      ok (record {
        header = header;
        encrypted_message =
            concat (elim preamble [ none ↦ [] | some p ↦ p ] ∷ r.iv ∷ sealed.1 ∷ sealed.0 ∷ []);
      })

    -- From the recipient's index on, for the overload that takes a message.
    unfoldable pub decrypt_at : Message T → ℕ → PlatformId T → Bytes → Option Bytes → Result Bytes
    unfolding id_bytes decrypt_key build_header subarray subarray_from check_sender
    decrypt_at data_ index id private_key sender = do
      ephemeral ← or_throw data_.ephemeral_public_key (err invalid_ephemeral_public_key)
      encrypted_key ← or_throw (get_elem? data_.recipient_keys index) (err type_error)
      symmetric_key ←
          decrypt_key c crypto private_key encrypted_key ephemeral (some (id_bytes ids id))
      header_bytes ← build_header c ids data_.header
      let stored = data_.encrypted_message
      let iv = subarray stored 0 c.iv_size
      let auth_tag = subarray stored c.iv_size (c.iv_size + c.auth_tag_size)
      let encrypted = subarray_from stored (c.iv_size + c.auth_tag_size)
      decrypted ← crypto.decipher symmetric_key iv auth_tag (some header_bytes) encrypted
      throw_if (not (eq_ℕ data_.data_length (length decrypted))) invalid_data_length
      check_sender c crypto node sender decrypted

    -- The overload that takes a message and a member.
    unfoldable pub decrypt_multiple : Message T → Member T → Option Bytes → Result Bytes
    unfolding find_index same_id decrypt_at
    decrypt_multiple data_ recipient sender = do
      private_key ← or_throw recipient.private_key (err private_key_not_loaded)
      index ←
          or_throw (find_index (λ id. same_id ids id recipient.id) data_.recipient_ids)
            (err recipient_not_found)
      decrypt_at data_ index recipient.id private_key sender

    -- The overload that takes the parts of a message has its own copy of all that follows the
    -- search; this is its check of the sender.
    unfoldable pub check_parts_sender : Option Bytes → Bytes → Result Bytes
    unfolding verify subarray subarray_from
    check_parts_sender none decrypted = ok decrypted
    check_parts_sender (some sender_public_key) decrypted = do
      throw_if (ltb (length decrypted) 64) invalid_signature
      let signature = subarray decrypted 0 64
      let message = subarray_from decrypted 64
      throw_if (not (verify c node sender_public_key message signature)) invalid_signature
      ok message

    unfoldable pub decrypt_multiple_parts :
        Bytes
        → List (PlatformId T)
        → List Bytes
        → Bytes
        → PlatformId T
        → Bytes
        → Option Bytes
        → Result Bytes
    unfolding overhead find_index same_parts_id id_bytes decrypt_key build_header subarray
        subarray_from check_parts_sender
    decrypt_multiple_parts stored recipient_ids recipient_keys ephemeral recipient_id private_key
          sender =
        do
          header_size ← overhead c (length recipient_ids) false (some recipient_keys)
          let data_length = sub_ℕ (length stored) (c.iv_size + c.auth_tag_size)
          let header : ParsedHeader T = record {
            data_length = data_length;
            recipient_count = length recipient_ids;
            recipient_ids = recipient_ids;
            recipient_keys = recipient_keys;
            header_size = header_size;
            ephemeral_public_key = some ephemeral;
          }
          let recipient_bytes = id_bytes ids recipient_id
          index ←
              or_throw (find_index (λ id. same_parts_id ids id recipient_id) recipient_ids)
                (err recipient_not_found)
          encrypted_key ← or_throw (get_elem? recipient_keys index) (err type_error)
          symmetric_key ←
              decrypt_key c crypto private_key encrypted_key ephemeral (some recipient_bytes)
          header_bytes ← build_header c ids header
          let iv = subarray stored 0 c.iv_size
          let auth_tag = subarray stored c.iv_size (c.iv_size + c.auth_tag_size)
          let encrypted = subarray_from stored (c.iv_size + c.auth_tag_size)
          decrypted ← crypto.decipher symmetric_key iv auth_tag (some header_bytes) encrypted
          throw_if (not (eq_ℕ data_length (length decrypted))) invalid_data_length
          check_parts_sender sender decrypted
