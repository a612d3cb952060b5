-- ===== src/SingleRecipient/Decrypt.antt =====
-- `decryptWithHeader`, `decryptWithHeaderEx` and `decryptWithComponents` of
-- services/ecies/single-recipient.ts.
use node_ecies_lib.Prelude.{ℕ, suc, ◌+◌, not, Option, some, [], ◌∷◌, length, ◌==◌, if◌then◌else◌}
use node_ecies_lib.Prelude.Int.{ℤ, pos, negsuc, sub_ℕ}
use node_ecies_lib.Errors.{
  Error, Result, ok, err, ◌>>=◌, ◌>>◌, throw_if, is_ecies_error, crypto_error, decryption_failed,
}
use node_ecies_lib.Buffer.{Bytes, alloc, concat, write_uint_be}
use node_ecies_lib.Ecies.{Consts}
use node_ecies_lib.CryptoCore.{Node, normalize_public_key, compute_shared_secret, derive_shared_key}
use node_ecies_lib.SingleRecipient.{info}
use node_ecies_lib.SingleRecipient.Parse.{ParsedMessage, parse_encrypted_message}

-- What the catch throws for an error: an `ECIESError` as it is, DecryptionFailed for every other.
abbrev pub ecies_error : Error → Error
ecies_error e = if is_ecies_error e then e else decryption_failed

abbrev pub catch_other {ℓ} : {A : Type ℓ} → Result A → Result A
catch_other (ok a) = ok a
catch_other (err e) = err (ecies_error e)

-- A catch that turns every error into DecryptionFailed.
abbrev pub catch_all {ℓ} : {A : Type ℓ} → Result A → Result A
catch_all (ok a) = ok a
catch_all (err e) = err decryption_failed

-- `header.dataLength + header.headerSize`
abbrev pub consumed : ℤ → ℕ → ℤ
consumed (pos n) size = pos (n + size)
consumed (negsuc n) size = sub_ℕ size (suc n)

module _ (c : Consts) {S : Type 0} (node : Node S) where
  -- What is refused where the decipher is created is refused where it is used here; the errors are
  -- the same.
  unfoldable pub decipher_all : Bytes → Bytes → Bytes → Bytes → Bytes → Result Bytes
  decipher_all sym_key iv auth_tag aad encrypted = catch_all (do
    throw_if (length encrypted == 0) crypto_error
    result ← node.decipher sym_key iv auth_tag (some aad) encrypted
    throw_if (length result == 0) decryption_failed
    ok result)

  unfoldable pub decrypt_with_components :
      Bytes → Bytes → Bytes → Bytes → Bytes → Bytes → Result Bytes
  unfolding normalize_public_key compute_shared_secret derive_shared_key decipher_all
  decrypt_with_components private_key ephemeral_public_key iv auth_tag encrypted aad =
      catch_other (do
        normalized_key ← normalize_public_key c ephemeral_public_key
        shared_secret ← catch_all (compute_shared_secret c node private_key normalized_key)
        let sym_key = derive_shared_key c node shared_secret [] info c.key_size
        throw_if (not (length auth_tag == c.auth_tag_size)) decryption_failed
        throw_if (not (length iv == c.iv_size)) decryption_failed
        decipher_all sym_key iv auth_tag aad encrypted)

  -- What follows the parse.
  unfoldable pub decrypt_parsed : Bytes → ParsedMessage → Result (Bytes × ℤ)
  unfolding normalize_public_key write_uint_be decrypt_with_components
  decrypt_parsed private_key parsed = do
    let header = parsed.header
    normalized_key ← normalize_public_key c header.ephemeral_public_key
    version_buffer ← write_uint_be 1 c.version_v1 (alloc 1) 0
    suite_buffer ← write_uint_be 1 c.suite_secp256k1_aes256gcm_sha256 (alloc 1) 0
    type_buffer ← write_uint_be 1 header.encryption_type (alloc 1) 0
    let aad =
        concat (header.preamble ∷ version_buffer ∷ suite_buffer ∷ type_buffer ∷ normalized_key ∷ [])
    decrypted ←
        decrypt_with_components private_key normalized_key header.iv header.auth_tag parsed.data_
          aad
    ok (decrypted, consumed header.data_length header.header_size)

  module _ (ensure_type : ℕ → Result ℕ) where
    unfoldable pub decrypt_with_header_ex :
        Option ℕ → Bytes → Bytes → ℕ → Option ℕ → Result (Bytes × ℤ)
    unfolding parse_encrypted_message decrypt_parsed
    decrypt_with_header_ex encryption_type private_key encrypted_data preamble_size expected =
        catch_other (
          parse_encrypted_message c ensure_type encryption_type encrypted_data preamble_size
            expected
          >>= λ parsed. decrypt_parsed private_key parsed)

    unfoldable pub decrypt_with_header : Option ℕ → Bytes → Bytes → ℕ → Option ℕ → Result Bytes
    unfolding decrypt_with_header_ex
    decrypt_with_header encryption_type private_key encrypted_data preamble_size expected =
        catch_other (
          decrypt_with_header_ex encryption_type private_key encrypted_data preamble_size expected
          >>= λ result. ok result.0)
