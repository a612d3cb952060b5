-- ===== src/Service.antt =====
-- `ECIESService` of services/ecies/service.ts, where it passes one recipient's messages on to the
-- single-recipient core and computes their lengths. A length is a JavaScript number, so it is signed.
pub mod Lengths
pub mod Streams
mod Tests
use node_ecies_lib.Prelude.{
  ℕ, ◌+◌, ◌-◌, ◌*◌, Bool, true, false, Option, none, some, [], length, leb, ltb, ◌==◌,
  if◌then◌else◌,
}
use node_ecies_lib.Prelude.Int.{ℤ, pos, negsuc, is_negative, pos_part, sub_ℕ}
use node_ecies_lib.Errors.{
  Error, Result, ok, err, ◌>>=◌, ◌>>◌, throw_if, multiple_type_not_supported, length_error,
}
use node_ecies_lib.Buffer.{Bytes}
use node_ecies_lib.Ecies.{Consts}
use node_ecies_lib.CryptoCore.{Node}
use node_ecies_lib.SingleRecipient.{
  EncryptionType, basic, with_length, multiple, encrypt as encrypt_single,
}
use node_ecies_lib.SingleRecipient.Parse.{SingleHeader, parse_encrypted_message}
use node_ecies_lib.SingleRecipient.Decrypt.{decrypt_with_header, decrypt_with_header_ex}

-- What one encryption draws at random.
pub record Draw : Type 0 where
  pub ephemeral_private_key : Bytes
  pub iv : Bytes

module _ (c : Consts) where
  -- computeEncryptedLengthFromDataLength; the argument that may be missing is the recipient count.
  unfoldable pub compute_encrypted_length : ℤ → EncryptionType → Option ℕ → Result ℕ
  compute_encrypted_length (negsuc n) mode count = err length_error
  compute_encrypted_length (pos n) basic count = ok (n + c.basic_fixed_overhead_size)
  compute_encrypted_length (pos n) with_length count = ok (n + c.with_length_fixed_overhead_size)
  compute_encrypted_length (pos n) multiple none =
      ok (n + c.multiple_fixed_overhead_size + 1 * c.encrypted_key_size)
  compute_encrypted_length (pos n) multiple (some count) =
      ok (n + c.multiple_fixed_overhead_size + count * c.encrypted_key_size)

  -- computeDecryptedLengthFromEncryptedDataLength, for a padding that is not negative.
  unfoldable pub compute_decrypted_length : ℤ → Option ℕ → Result ℕ
  compute_decrypted_length (negsuc n) padding = err length_error
  compute_decrypted_length (pos n) none =
      if ltb n c.with_length_fixed_overhead_size
      then err length_error
      else ok (n - c.with_length_fixed_overhead_size)
  compute_decrypted_length (pos n) (some padding) =
      if ltb n (c.with_length_fixed_overhead_size + padding)
      then err length_error
      else ok (n - c.with_length_fixed_overhead_size - padding)

  module _ {S : Type 0} (node : Node S) where
    unfoldable pub encrypt_basic : Draw → Bytes → Bytes → Bytes → Result Bytes
    unfolding encrypt_single
    encrypt_basic r receiver_public_key message preamble =
        encrypt_single c node c.type_basic receiver_public_key message preamble
          r.ephemeral_private_key r.iv

    unfoldable pub encrypt_with_length : Draw → Bytes → Bytes → Bytes → Result Bytes
    unfolding encrypt_single
    encrypt_with_length r receiver_public_key message preamble =
        encrypt_single c node c.type_with_length receiver_public_key message preamble
          r.ephemeral_private_key r.iv

    unfoldable pub encrypt : Draw → ℕ → Bytes → Bytes → Bytes → Result Bytes
    unfolding encrypt_single
    encrypt r mode receiver_public_key message preamble = do
      throw_if (mode == c.type_multiple) multiple_type_not_supported
      encrypt_single c node mode receiver_public_key message preamble r.ephemeral_private_key r.iv

    module _ (ensure_type : ℕ → Result ℕ) where
      unfoldable pub parse_single_encrypted_header : ℕ → Bytes → ℕ → Option ℕ → Result SingleHeader
      unfolding parse_encrypted_message
      parse_single_encrypted_header encryption_type data_ preamble_size expected = do
        parsed ←
            parse_encrypted_message c ensure_type (some encryption_type) data_ preamble_size
              expected
        ok parsed.header

      unfoldable pub decrypt_basic_with_header : Bytes → Bytes → ℕ → Option ℕ → Result Bytes
      unfolding decrypt_with_header
      decrypt_basic_with_header = decrypt_with_header c node ensure_type (some c.type_basic)

      unfoldable pub decrypt_with_length_and_header : Bytes → Bytes → ℕ → Option ℕ → Result Bytes
      unfolding decrypt_with_header
      decrypt_with_length_and_header =
          decrypt_with_header c node ensure_type (some c.type_with_length)

      unfoldable pub decrypt_basic_with_header_ex :
          Bytes → Bytes → ℕ → Option ℕ → Result (Bytes × ℤ)
      unfolding decrypt_with_header_ex
      decrypt_basic_with_header_ex = decrypt_with_header_ex c node ensure_type (some c.type_basic)

      unfoldable pub decrypt_with_length_and_header_ex :
          Bytes → Bytes → ℕ → Option ℕ → Result (Bytes × ℤ)
      unfolding decrypt_with_header_ex
      decrypt_with_length_and_header_ex =
          decrypt_with_header_ex c node ensure_type (some c.type_with_length)
