-- ===== src/MultiRecipient/Header.antt =====
-- The header of a message for several recipients: `calculateECIESMultipleRecipientOverhead`,
-- `getHeaderSize`, `buildECIESMultipleRecipientHeader`, `parseMultiEncryptedHeader` and
-- `parseMultiEncryptedBuffer` of services/ecies/multi-recipient.ts.
use Prim.Native.Nat.{bit_or}
use node_ecies_lib.Prelude.{
  ℕ, suc, ◌+◌, ◌*◌, ◌^◌, Bool, not, ◌||◌, Option, none, some, List, [], ◌∷◌, ◌++◌, length, take,
  drop, ltb, ◌==◌, if◌then◌else◌,
}
use node_ecies_lib.Prelude.Int.{ℤ, pos_part, is_negative, gt_ℕ}
use node_ecies_lib.Errors.{
  Result, ok, err, ◌>>=◌, ◌>>◌, throw_if, range_error, too_many_recipients,
  recipient_key_count_mismatch, file_size_too_large, invalid_ephemeral_public_key,
  invalid_recipient_count, invalid_multiple_recipient_id_size, invalid_encrypted_key_length,
}
use node_ecies_lib.Buffer.{concat, Bytes, alloc, write_uint_be}
use node_ecies_lib.Ecies.{Consts, IdProvider, PlatformId, id_bytes}

-- interfaces/multi-encrypted-parsed-header.ts
pub record ParsedHeader (T : Type 0) : Type 0 where
  pub data_length : ℤ
  pub recipient_count : ℕ
  pub recipient_ids : List (PlatformId T)
  pub recipient_keys : List Bytes
  pub header_size : ℕ
  pub ephemeral_public_key : Option Bytes

-- interfaces/multi-encrypted-message.ts
pub record Message (T : Type 0) : Type 0 where
  pub header : ParsedHeader T
  pub open header use *
  pub encrypted_message : Bytes

abbrev pub or_throw {ℓ} : {A : Type ℓ} → Option A → Result A → Result A
or_throw none e = e
or_throw (some a) e = ok a

-- `target.set(source, offset)`
unfoldable pub set_bytes : Bytes → ℕ → Bytes → Result Bytes
set_bytes target offset source =
    if ltb (length target) (offset + length source)
    then err range_error
    else ok (take offset target ++ (source ++ drop (offset + length source) target))

module _ (c : Consts) where
  -- encryptedKeys.reduce((total, key) => total + key.length, 0)
  unfoldable pub total_length : List Bytes → ℕ
  total_length [] = 0
  total_length (k ∷ ks) = length k + total_length ks

  unfoldable pub get_header_size : ℕ → ℕ
  get_header_size recipient_count =
      c.version_size
      + c.cipher_suite_size
      + c.encryption_type_size
      + c.public_key_length
      + c.multiple_data_length_size
      + c.recipient_count_size
      + recipient_count * c.recipient_id_size
      + recipient_count * c.encrypted_key_size

  unfoldable pub keys_size : ℕ → Option (List Bytes) → ℕ
  unfolding total_length
  keys_size recipient_count none = recipient_count * c.encrypted_key_size
  keys_size recipient_count (some keys) = total_length keys

  unfoldable pub overhead : ℕ → Bool → Option (List Bytes) → Result ℕ
  unfolding keys_size
  overhead recipient_count include_message_overhead encrypted_keys = do
    throw_if (ltb recipient_count 1) invalid_recipient_count
    let base =
        c.version_size
        + c.cipher_suite_size
        + c.encryption_type_size
        + c.multiple_data_length_size
        + c.recipient_count_size
        + recipient_count * c.recipient_id_size
        + keys_size recipient_count encrypted_keys
    ok (if include_message_overhead then base + c.multiple_fixed_overhead_size else base)

  -- (recipientIdSizeBigInt << 56n) | dataLengthBigInt
  unfoldable pub combined_length : ℕ → ℕ
  combined_length data_length = bit_or (c.recipient_id_size * 2 ^ 56) data_length

  -- The check of the loop over `data.recipientKeys`; an empty key and a key of another length
  -- throw the same error.
  unfoldable pub check_keys : List Bytes → Result (Unit {0})
  check_keys [] = ok tt
  check_keys (k ∷ ks) =
      throw_if (length k == 0) invalid_encrypted_key_length
      >> (throw_if (not (length k == c.encrypted_key_size)) invalid_encrypted_key_length
          >> check_keys ks)

module _ (c : Consts) {T : Type 0} (ids : IdProvider T) where
  -- data.recipientIds.forEach((recipientId, index) => ...)
  unfoldable pub write_ids : List (PlatformId T) → ℕ → Bytes → Result Bytes
  unfolding set_bytes id_bytes
  write_ids [] index buf = ok buf
  write_ids (i ∷ is) index buf =
      throw_if (not (length (id_bytes ids i) == c.recipient_id_size))
        invalid_multiple_recipient_id_size
      >> (set_bytes buf (index * c.recipient_id_size) (id_bytes ids i) >>= λ buf'.
          write_ids is (suc index) buf')

  unfoldable pub build_header : ParsedHeader T → Result Bytes
  build_header d = do
    throw_if (ltb c.max_recipients (length d.recipient_ids)) too_many_recipients
    throw_if (not (length d.recipient_ids == length d.recipient_keys)) recipient_key_count_mismatch
    throw_if (is_negative d.data_length || gt_ℕ d.data_length c.max_raw_data_size)
        file_size_too_large
    ephemeral ← or_throw d.ephemeral_public_key (err invalid_ephemeral_public_key)
    version ← write_uint_be 1 c.version_v1 (alloc c.version_size) 0
    suite ← write_uint_be 1 c.suite_secp256k1_aes256gcm_sha256 (alloc c.cipher_suite_size) 0
    type ← write_uint_be 1 c.type_multiple (alloc c.encryption_type_size) 0
    throw_if (ltb 255 c.recipient_id_size) invalid_recipient_count
    data_length ←
        write_uint_be 8 (combined_length c (pos_part d.data_length))
          (alloc c.multiple_data_length_size) 0
    count ← write_uint_be 2 (length d.recipient_ids) (alloc c.recipient_count_size) 0
    recipients ← write_ids d.recipient_ids 0 (alloc (length d.recipient_ids * c.recipient_id_size))
    check_keys c d.recipient_keys
    ok (
        concat (
          version
          ∷ suite
          ∷ type
          ∷ ephemeral
          ∷ data_length
          ∷ count
          ∷ recipients
          ∷ concat d.recipient_keys
          ∷ []))
