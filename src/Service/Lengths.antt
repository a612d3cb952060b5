-- ===== src/Service/Lengths.antt =====
-- The lengths that the service computes are those of its messages.
use node_ecies_lib.Prelude.{
  ℕ, ◌+◌, ◌≡◌, sym, ap, ◌∙◌, false, Option, none, some, [], length, append-nil, arith,
}
use node_ecies_lib.Prelude.Int.{ℤ, pos}
use node_ecies_lib.Errors.{Result, ok, ◌>>=◌}
use node_ecies_lib.Buffer.{Bytes}
use node_ecies_lib.Ecies.{Consts}
use node_ecies_lib.CryptoCore.{Node}
use node_ecies_lib.CryptoCore.Agreement.{IsSecp256k1}
use node_ecies_lib.SingleRecipient.{with_length}
use node_ecies_lib.SingleRecipient.Parse.{differs}
use node_ecies_lib.SingleRecipient.Decrypt.{decrypt_with_header_ex}
use node_ecies_lib.SingleRecipient.Reading.{IsDocumentedSingle}
use node_ecies_lib.SingleRecipient.Refusals.{decrypt_with_header-ex}
use node_ecies_lib.SingleRecipient.RoundTrip.{decrypt-encrypt_with_length}
use node_ecies_lib.SingleRecipient.Written.{IsAead, IsExchange, IsMessage}
use node_ecies_lib.Service.{
  Draw, compute_encrypted_length, compute_decrypted_length, encrypt_with_length,
  decrypt_with_length_and_header,
}

pub differs_self : (n : ℕ) → differs (some n) n ≡ false
unfolding differs
differs_self n = ground arith

module _ (c : Consts) (doc : IsDocumentedSingle c) where
  -- A length that was computed for a message with its length is computed back.
  pub compute_decrypted_length-compute_encrypted_length :
      (n : ℕ) (count : Option ℕ) (encrypted : ℕ)
      → compute_encrypted_length c (pos n) with_length count ≡ ok encrypted
      → compute_decrypted_length c (pos encrypted) none ≡ ok n
  unfolding compute_encrypted_length compute_decrypted_length
  compute_decrypted_length-compute_encrypted_length n count encrypted h = ground arith

  module _ {S : Type 0} (node : Node S) (law : IsSecp256k1 node) (aead : IsAead c node)
      (ensure_type : ℕ → Result ℕ)
      (ensured : ensure_type c.type_with_length ≡ ok c.type_with_length)
      (receiver_private receiver_public ephemeral_public secret : Bytes) (r : Draw)
      (exchange : IsExchange c node receiver_private receiver_public r.ephemeral_private_key
        ephemeral_public secret)
      (iv_sized : length r.iv ≡ c.iv_size) (message : Bytes) (valid : IsMessage c message) where
    -- The service encrypts a message with its length, without a preamble, to as many bytes as it
    -- computes, and decrypts them to the message.
    pub encrypt_with_length-length :
        (e : Bytes) × ((encrypt_with_length c node r receiver_public message [] ≡ ok e)
          × ((compute_encrypted_length c (pos (length message)) with_length none ≡ ok (length e))
              × (decrypt_with_length_and_header c node ensure_type receiver_private e 0 none
                  ≡ ok message)))
    unfolding encrypt_with_length decrypt_with_length_and_header compute_encrypted_length
    encrypt_with_length-length =
        let (e, (made, (sized, read))) =
          decrypt-encrypt_with_length c doc node law aead ensure_type receiver_private
            receiver_public r.ephemeral_private_key ephemeral_public secret exchange r.iv iv_sized
            [] message valid (some c.type_with_length) ensured (differs_self c.type_with_length)
            [] in
        (
          e,
          (
            made,
            (
              ap ok {x = length message + c.with_length_fixed_overhead_size} {y = length e}
                  (omega (arith, sized)),
              decrypt_with_header-ex c node ensure_type (some c.type_with_length) receiver_private e
                    0 none
                  ∙ ap
                      (λ (b : Bytes).
                        decrypt_with_header_ex c node ensure_type (some c.type_with_length)
                          receiver_private b 0 none
                        >>= λ x. ok x.0)
                      (sym (append-nil e))
                  ∙ ap (λ (x : Result (Bytes × ℤ)). x >>= λ y. ok y.0) read,
            ),
          ),
        )
