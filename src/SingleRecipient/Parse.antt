-- ===== src/SingleRecipient/Parse.antt =====
-- `parseEncryptedMessage` of services/ecies/single-recipient.ts. A length that is read from the
-- message and is 2 ^ 53 or more is inexact as a JavaScript number; no buffer is that long, so it
-- fails the same checks. `ensure_type` is ensureEciesEncryptionTypeEnum of ecies-lib.
use node_ecies_lib.Prelude.{
  ℕ, ◌+◌, Bool, true, false, not, Option, none, some, [], length, ltb, ◌==◌, if◌then◌else◌,
}
use node_ecies_lib.Prelude.Int.{ℤ, pos, negsuc, gt_ℕ, pos_part}
use node_ecies_lib.Errors.{
  Result, ok, ◌>>=◌, ◌>>◌, throw_if, invalid_version, invalid_cipher_suite, invalid_encryption_type,
  invalid_encrypted_data_length, invalid_ephemeral_public_key, invalid_iv_length,
  invalid_auth_tag_length,
}
use node_ecies_lib.Buffer.{Bytes, subarray, subarray_from, read_uint_be}
use node_ecies_lib.Ecies.{Consts}
use node_ecies_lib.CryptoCore.{normalize_public_key}

-- ISingleEncryptedParsedHeader
pub record SingleHeader : Type 0 where
  pub preamble : Bytes
  pub encryption_type : ℕ
  pub ephemeral_public_key : Bytes
  pub iv : Bytes
  pub auth_tag : Bytes
  pub data_length : ℤ
  pub header_size : ℕ

pub record ParsedMessage : Type 0 where
  pub header : SingleHeader
  pub data_ : Bytes
  pub remainder : Bytes

-- `options?.dataLength ?? -1`
unfoldable pub length_option : Option ℕ → ℤ
length_option none = negsuc 0
length_option (some n) = pos n

-- `encryptionType !== undefined && actual !== encryptionType`, and the same of the length option
unfoldable pub differs : Option ℕ → ℕ → Bool
differs none actual = false
differs (some expected) actual = not (actual == expected)

module _ (c : Consts) where
  unfoldable pub fixed_overhead : Bool → ℕ
  fixed_overhead include_length =
      if include_length then c.with_length_fixed_overhead_size else c.basic_fixed_overhead_size

  -- From the length prefix on: `offset` is behind the authentication tag.
  unfoldable pub parse_data : Bool → Bytes → ℕ → Option ℕ → Result (ℤ × Bytes × Bytes)
  unfolding length_option differs subarray subarray_from read_uint_be
  parse_data false data_ offset expected = do
    let data_length = length_option expected
    let encrypted_data =
        if gt_ℕ data_length 0
        then subarray data_ offset (offset + pos_part data_length)
        else subarray_from data_ offset
    ok (data_length, encrypted_data, [])
  parse_data true data_ offset expected = do
    let after_length = offset + c.with_length_data_length_size
    data_length ← read_uint_be 8 (subarray data_ offset after_length) 0
    throw_if (differs expected data_length) invalid_encrypted_data_length
    let encrypted_data =
        if ltb 0 data_length
        then subarray data_ after_length (after_length + data_length)
        else subarray_from data_ after_length
    throw_if (not (length encrypted_data == data_length)) invalid_encrypted_data_length
    ok (pos data_length, encrypted_data, subarray_from data_ (after_length + data_length))

  -- The last checks, and the result.
  unfoldable pub check_components :
      ℕ → Bool → Bytes → Bytes → Bytes → Bytes → ℤ × Bytes × Bytes → Result ParsedMessage
  unfolding fixed_overhead
  check_components type include_length preamble normalized_key iv auth_tag parsed = do
    throw_if (not (length normalized_key == c.public_key_length)) invalid_ephemeral_public_key
    throw_if (not (length iv == c.iv_size)) invalid_iv_length
    throw_if (not (length auth_tag == c.auth_tag_size)) invalid_auth_tag_length
    ok (record {
      header = record {
        preamble = preamble;
        encryption_type = type;
        ephemeral_public_key = normalized_key;
        iv = iv;
        auth_tag = auth_tag;
        data_length = parsed.0;
        header_size = fixed_overhead include_length;
      };
      data_ = parsed.1;
      remainder = parsed.2;
    })

  -- From the ephemeral public key on: `offset` is behind the encryption type.
  unfoldable pub parse_components : ℕ → Bool → Bytes → Bytes → ℕ → Option ℕ → Result ParsedMessage
  unfolding normalize_public_key subarray parse_data check_components
  parse_components type include_length preamble data_ offset expected = do
    let iv_at = offset + c.public_key_length
    let tag_at = iv_at + c.iv_size
    let length_at = tag_at + c.auth_tag_size
    normalized_key ← normalize_public_key c (subarray data_ offset iv_at)
    let iv = subarray data_ iv_at tag_at
    let auth_tag = subarray data_ tag_at length_at
    parsed ← parse_data include_length data_ length_at expected
    check_components type include_length preamble normalized_key iv auth_tag parsed

  module _ (ensure_type : ℕ → Result ℕ) where
    unfoldable pub parse_encrypted_message : Option ℕ → Bytes → ℕ → Option ℕ → Result ParsedMessage
    unfolding differs subarray read_uint_be fixed_overhead parse_components
    parse_encrypted_message encryption_type data_ preamble_size expected = do
      let preamble = subarray data_ 0 preamble_size
      version ← read_uint_be 1 data_ preamble_size
      let suite_at = preamble_size + c.version_size
      throw_if (not (version == c.version_v1)) invalid_version
      suite ← read_uint_be 1 data_ suite_at
      let type_at = suite_at + c.cipher_suite_size
      throw_if (not (suite == c.suite_secp256k1_aes256gcm_sha256)) invalid_cipher_suite
      type_byte ← read_uint_be 1 data_ type_at
      type ← ensure_type type_byte
      throw_if (differs encryption_type type) invalid_encryption_type
      throw_if (type == c.type_multiple) invalid_encryption_type
      let include_length = type == c.type_with_length
      throw_if (ltb (length data_) (fixed_overhead include_length)) invalid_encrypted_data_length
      parse_components type include_length preamble data_ (type_at + 1) expected
