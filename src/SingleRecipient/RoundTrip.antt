-- ===== src/SingleRecipient/RoundTrip.antt =====
-- What `encrypt` writes is what `decrypt_with_header_ex` reads.
use node_ecies_lib.Prelude.{
  ℕ, ◌+◌, ◌-◌, ◌<◌, ◌≤◌, ◌≡◌, refl, sym, ap, subst, ◌∙◌, Bool, true, false, Option, none, [], ◌++◌,
  length, length-append, append-nil, ◌==◌, eq→==, ne→==, arith,
}
use node_ecies_lib.Prelude.Int.{ℤ, pos, negsuc, sub_ℕ}
use node_ecies_lib.Errors.{Result, ok}
use node_ecies_lib.Buffer.{Bytes, be_bytes}
use node_ecies_lib.Buffer.Laws.{length-be_bytes, write-alloc}
use node_ecies_lib.Buffer.Fields.{At}
use node_ecies_lib.CryptoCore.Normal.{IsPoint}
use node_ecies_lib.Ecies.{Consts}
use node_ecies_lib.CryptoCore.{Node}
use node_ecies_lib.CryptoCore.Agreement.{IsSecp256k1, get_public_key_inv, public_key-IsPoint}
use node_ecies_lib.SingleRecipient.{
  EncryptionType, basic, with_length, length_buffer, type_number, encrypt,
}
use node_ecies_lib.SingleRecipient.Parse.{parse_data, differs, fixed_overhead}
use node_ecies_lib.SingleRecipient.Decrypt.{consumed, decrypt_with_header_ex}
use node_ecies_lib.SingleRecipient.Reading.{
  IsDocumentedSingle, parse_data-with_length, parse_data-basic, parse_encrypted_message-At,
}
use node_ecies_lib.SingleRecipient.Written.{
  IsSingle, length-written, written-append, IsAead, IsExchange, IsMessage, is_basic, is_with_length,
  sealed, written, single_byte, not_multiple, encrypt-written, decrypt_parsed-written,
}

sub_one : (n : ℕ) → 0 < n → sub_ℕ n 1 ≡ pos (n - 1)
sub_one n h = ground arith

module _ (c : Consts) (doc : IsDocumentedSingle c) {S : Type 0} (node : Node S)
    (law : IsSecp256k1 node) (aead : IsAead c node) (ensure_type : ℕ → Result ℕ)
    (receiver_private receiver_public ephemeral_private ephemeral_public secret : Bytes)
    (exchange : IsExchange c node receiver_private receiver_public ephemeral_private
      ephemeral_public secret)
    (iv : Bytes) (iv_sized : length iv ≡ c.iv_size) (preamble message : Bytes)
    (valid : IsMessage c message) (want : Option ℕ) where
  ephemeral_key : IsPoint ephemeral_public × (length ephemeral_public ≡ 33)
  ephemeral_key =
      let known = get_public_key_inv c node _ _ exchange.ephemeral in
      (
        public_key-IsPoint c node law ephemeral_private ephemeral_public known,
        (law.compressed ephemeral_private ephemeral_public known).0,
      )

  -- The bytes of a message, from which `parse_data` reads `n`, its body and what follows.
  decrypt-written :
      (t : EncryptionType) (with_prefix : Bool) (prefix rest : Bytes) (n : ℤ) (left : Bytes)
      → IsSingle t
      → ensure_type (type_number c t) ≡ ok (type_number c t)
      → differs want (type_number c t) ≡ false
      → (type_number c t == c.type_with_length) ≡ with_prefix
      → fixed_overhead c with_prefix ≤ 36 + c.iv_size + c.auth_tag_size + length prefix
      → let sealing = sealed c node (type_number c t) preamble ephemeral_public secret iv message in
        let bytes =
          written c (type_number c t) preamble ephemeral_public iv sealing.1 prefix sealing.0
          ++ rest in
        ((at : ℕ)
          → At bytes at (prefix ++ (sealing.0 ++ rest))
          → parse_data c with_prefix bytes at none ≡ ok (n, sealing.0, left))
        → decrypt_with_header_ex c node ensure_type want receiver_private bytes
            (length preamble)
            none
          ≡ ok (message, consumed n (fixed_overhead c with_prefix))
  unfolding decrypt_with_header_ex
  decrypt-written t with_prefix prefix rest n left single ensured same prefixed enough reads =
      let type = type_number c t in
      let sealing = sealed c node type preamble ephemeral_public secret iv message in
      rw
        (
          parse_encrypted_message-At c doc type with_prefix preamble ephemeral_public iv sealing.1
              ensure_type want (prefix ++ (sealing.0 ++ rest)) n sealing.0 left ensured same
              (single_byte c doc node t single) (not_multiple c doc node t single) prefixed
              (omega (arith, enough, length-append prefix (sealing.0 ++ rest))) ephemeral_key.0
              ephemeral_key.1 iv_sized (aead.tag_size _ _ _ _)
              (written-append c type preamble ephemeral_public iv sealing.1 prefix sealing.0 rest)
              reads,
          decrypt_parsed-written c doc node aead receiver_private receiver_public ephemeral_private
              ephemeral_public secret exchange iv preamble message valid law t with_prefix n left
              single iv_sized,
        )
        refl

  -- A message that is encrypted with its length is decrypted by the receiver to itself, whatever
  -- follows it in the buffer; the encrypted message is as long as the preamble and the bytes that
  -- are reported as consumed.
  pub decrypt-encrypt_with_length :
      ensure_type c.type_with_length ≡ ok c.type_with_length
      → differs want c.type_with_length ≡ false
      → (rest : Bytes)
      → (e : Bytes) × ((encrypt c node c.type_with_length receiver_public message preamble
              ephemeral_private iv
            ≡ ok e)
          × ((length e ≡ length preamble + (length message + c.with_length_fixed_overhead_size))
              × (decrypt_with_header_ex c node ensure_type want receiver_private
                    (e ++ rest)
                    (length preamble)
                    none
                  ≡ ok (message, pos (length message + c.with_length_fixed_overhead_size)))))
  unfolding decrypt_with_header_ex length_buffer fixed_overhead
  decrypt-encrypt_with_length ensured same rest =
      let type = c.type_with_length in
      let body = (sealed c node type preamble ephemeral_public secret iv message).0 in
      let tag = (sealed c node type preamble ephemeral_public secret iv message).1 in
      let prefix = be_bytes 8 (length message) in
      let body_sized : length body ≡ length message = aead.cipher_size _ _ _ _ in
      let tag_sized : length tag ≡ c.auth_tag_size = aead.tag_size _ _ _ _ in
      (
        written c type preamble ephemeral_public iv tag prefix body,
        (
          encrypt-written c doc node aead receiver_private receiver_public ephemeral_private
              ephemeral_public secret exchange iv preamble message valid law with_length prefix
              is_with_length
              (write-alloc 8 (length message) 8 refl (omega (arith, valid.not_large))),
          (
            length-written c type preamble ephemeral_public iv tag prefix body ephemeral_key.1
                ∙ omega (
                  arith,
                  length-append prefix body,
                  length-be_bytes 8 (length message),
                  body_sized,
                  tag_sized,
                  iv_sized,
                  doc.with_length_overhead,
                  doc.basic_overhead,
                ),
            decrypt-written with_length true prefix rest (pos (length message)) rest is_with_length
                ensured same (eq→== c.type_with_length c.type_with_length refl)
                (omega (
                  arith,
                  doc.with_length_overhead,
                  doc.basic_overhead,
                  length-be_bytes 8 (length message),
                ))
                (λ at stands.
                  parse_data-with_length c doc at (length message) body rest body_sized
                    valid.nonempty (omega (arith, valid.not_large)) stands),
          ),
        ),
      )

  -- A message that is encrypted without its length is decrypted by the receiver to itself; the bytes
  -- that are reported as consumed are one fewer than the fixed overhead, whatever was encrypted.
  pub decrypt-encrypt_basic :
      ensure_type c.type_basic ≡ ok c.type_basic
      → differs want c.type_basic ≡ false
      → (e : Bytes) × ((encrypt c node c.type_basic receiver_public message preamble
              ephemeral_private iv
            ≡ ok e)
          × ((length e ≡ length preamble + (length message + c.basic_fixed_overhead_size))
              × (decrypt_with_header_ex c node ensure_type want receiver_private e
                    (length preamble)
                    none
                  ≡ ok (message, pos (c.basic_fixed_overhead_size - 1)))))
  unfolding length_buffer fixed_overhead
  decrypt-encrypt_basic ensured same =
      let type = c.type_basic in
      let body = (sealed c node type preamble ephemeral_public secret iv message).0 in
      let tag = (sealed c node type preamble ephemeral_public secret iv message).1 in
      let body_sized : length body ≡ length message = aead.cipher_size _ _ _ _ in
      let tag_sized : length tag ≡ c.auth_tag_size = aead.tag_size _ _ _ _ in
      let bytes = written c type preamble ephemeral_public iv tag [] body in
      (
        bytes,
        (
          encrypt-written c doc node aead receiver_private receiver_public ephemeral_private
              ephemeral_public secret exchange iv preamble message valid law basic [] is_basic refl,
          (
            length-written c type preamble ephemeral_public iv tag [] body ephemeral_key.1
                ∙ omega (arith, body_sized, tag_sized, iv_sized, doc.basic_overhead),
            ap
                  (λ (b : Bytes).
                    decrypt_with_header_ex c node ensure_type want receiver_private b
                      (length preamble) none)
                  (sym (append-nil bytes))
                ∙ decrypt-written basic false [] [] (negsuc 0) [] is_basic ensured same
                    (ne→== c.type_basic c.type_with_length doc.types_differ)
                    (omega (arith, doc.basic_overhead))
                    (λ at stands.
                      parse_data-basic c doc at body
                        (subst (λ (t : Bytes). At (bytes ++ []) at t) (append-nil body) stands))
                ∙ ap (λ (z : ℤ). ok (message, z))
                    (sub_one c.basic_fixed_overhead_size (omega (arith, doc.basic_overhead))),
          ),
        ),
      )
