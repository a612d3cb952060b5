-- ===== src/SingleRecipient.antt =====
-- `encrypt` and `getHeaderSize` of services/ecies/single-recipient.ts, and the names that the other
-- operations share.
pub mod Parse
pub mod Decrypt
pub mod Reading
pub mod Written
pub mod RoundTrip
pub mod Refusals
pub mod Sample
mod Tests
use node_ecies_lib.Prelude.{
  ℕ, zero, suc, ◌+◌, ◌≡◌, Bool, true, false, not, Option, some, List, [], ◌∷◌, length, ltb, ◌==◌,
  if◌then◌else◌,
}
use node_ecies_lib.Errors.{
  Error, Result, ok, err, ◌>>=◌, ◌>>◌, throw_if, ecdh_invalid_public_key, range_error, syntax_error,
  crypto_error, invalid_encryption_type, cannot_encrypt_empty_data, message_too_large,
  invalid_data_length, encrypted_size_exceeds_expected,
}
use node_ecies_lib.Buffer.{Bytes, alloc, concat, write_uint_be}
use node_ecies_lib.Ecies.{Consts}
use node_ecies_lib.CryptoCore.{
  Node, normalize_public_key, get_public_key, compute_shared_secret, derive_shared_key,
}
use node_ecies_lib.MultiRecipient.Keys.{catch_secret}

-- EciesEncryptionType of ecies-lib.
pub data EncryptionType : Type 0 where
  basic with_length multiple : EncryptionType

-- Buffer.from('ecies-v2-key-derivation')
abbrev pub info : Bytes
info =
    101 ∷ 99 ∷ 105 ∷ 101 ∷ 115 ∷ 45 ∷ 118 ∷ 50 ∷ 45 ∷ 107 ∷ 101 ∷ 121 ∷ 45 ∷ 100 ∷ 101 ∷ 114 ∷ 105
    ∷ 118 ∷ 97 ∷ 116 ∷ 105 ∷ 111 ∷ 110 ∷ []

module _ (c : Consts) where
  unfoldable pub get_header_size : EncryptionType → Result ℕ
  get_header_size basic = ok c.basic_fixed_overhead_size
  get_header_size with_length = ok c.with_length_fixed_overhead_size
  get_header_size multiple = err invalid_encryption_type

  -- EciesEncryptionTypeMap
  abbrev pub type_number : EncryptionType → ℕ
  type_number basic = c.type_basic
  type_number with_length = c.type_with_length
  type_number multiple = c.type_multiple

  -- The length prefix: UINT64_SIZE bytes, or none.
  unfoldable pub length_buffer : EncryptionType → ℕ → Result Bytes
  unfolding write_uint_be
  length_buffer basic n = ok []
  length_buffer with_length n = write_uint_be 8 n (alloc 8) 0
  length_buffer multiple n = ok (alloc 8)

  module _ {S : Type 0} (node : Node S) where
    -- What generatePrivateKey and randomBytes return are the last two arguments.
    unfoldable pub encrypt : ℕ → Bytes → Bytes → Bytes → Bytes → Bytes → Result Bytes
    unfolding write_uint_be normalize_public_key get_public_key compute_shared_secret
        derive_shared_key length_buffer
    encrypt mode receiver_public_key message preamble ephemeral_private_key iv = do
      throw_if (mode == c.type_multiple) invalid_encryption_type
      throw_if (length message == 0) cannot_encrypt_empty_data
      throw_if (ltb 0x7fffffff (length message)) message_too_large
      let type = if mode == c.type_basic then basic else with_length
      type_buffer ← write_uint_be 1 (type_number type) (alloc 1) 0
      version_buffer ← write_uint_be 1 c.version_v1 (alloc 1) 0
      suite_buffer ← write_uint_be 1 c.suite_secp256k1_aes256gcm_sha256 (alloc 1) 0
      throw_if (ltb c.max_raw_data_size (length message)) invalid_data_length
      ephemeral_public_key ← get_public_key c node ephemeral_private_key
      shared_secret ← catch_secret (
          normalize_public_key c receiver_public_key >>= λ normalized.
          compute_shared_secret c node ephemeral_private_key normalized)
      let sym_key = derive_shared_key c node shared_secret [] info c.key_size
      let aad =
          concat
            (preamble ∷ version_buffer ∷ suite_buffer ∷ type_buffer ∷ ephemeral_public_key ∷ [])
      let sealed = node.cipher sym_key iv (some aad) message
      length_prefix ← length_buffer type (length sealed.0)
      throw_if (ltb (length message + 1024) (length sealed.0)) encrypted_size_exceeds_expected
      ok (
          concat (
            preamble ∷ version_buffer ∷ suite_buffer ∷ type_buffer ∷ ephemeral_public_key ∷ iv
            ∷ sealed.1 ∷ length_prefix ∷ sealed.0 ∷ []))
