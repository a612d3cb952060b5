-- ===== src/SingleRecipient/Written.antt =====
-- What `encrypt` writes, and what `decrypt_parsed` makes of its fields.
use node_ecies_lib.Prelude.{
  ℕ, ◌+◌, ◌<◌, ◌≤◌, ◌≡◌, refl, sym, Bool, false, Option, some, [], ◌++◌, length, length-append,
  append-nil, append_assoc, ◌==◌, eq→==, ne→==, pos→==0, le→ltb, if◌then◌else◌, arith,
}
use node_ecies_lib.Prelude.Int.{ℤ}
use node_ecies_lib.Errors.{ok}
use node_ecies_lib.Buffer.{Bytes, be_bytes}
use node_ecies_lib.Buffer.Laws.{length-be_bytes, write-alloc}
use node_ecies_lib.Ecies.{Consts}
use node_ecies_lib.CryptoCore.{Node, get_public_key, compute_shared_secret, derive_shared_key}
use node_ecies_lib.CryptoCore.Agreement.{
  IsSecp256k1, public_key_normalized, compute_shared_secret_symmetric,
}
use node_ecies_lib.SingleRecipient.{
  EncryptionType, basic, with_length, multiple, info, type_number, length_buffer, encrypt,
}
use node_ecies_lib.SingleRecipient.Parse.{fixed_overhead}
use node_ecies_lib.SingleRecipient.Decrypt.{
  consumed, decipher_all, decrypt_with_components, decrypt_parsed,
}
use node_ecies_lib.SingleRecipient.Reading.{IsDocumentedSingle, parsed_message}

-- AES-GCM: deciphering undoes ciphering, the ciphertext is as long as the plaintext, and the tag has
-- its size.
pub record IsAead (c : Consts) {S : Type 0} (node : Node S) : Type 0 where
  pub decipher-cipher :
      (key iv : Bytes) (aad : Option Bytes) (m : Bytes)
      → node.decipher key iv (node.cipher key iv aad m).1 aad (node.cipher key iv aad m).0 ≡ ok m
  pub cipher_size :
      (key iv : Bytes) (aad : Option Bytes) (m : Bytes)
      → length (node.cipher key iv aad m).0 ≡ length m
  pub tag_size :
      (key iv : Bytes) (aad : Option Bytes) (m : Bytes)
      → length (node.cipher key iv aad m).1 ≡ c.auth_tag_size

-- The receiver's key pair and the ephemeral one, and the secret they share.
pub record IsExchange (c : Consts) {S : Type 0} (node : Node S)
    (receiver_private receiver_public ephemeral_private ephemeral_public secret : Bytes)
    : Type 0 where
  pub receiver : get_public_key c node receiver_private ≡ ok receiver_public
  pub ephemeral : get_public_key c node ephemeral_private ≡ ok ephemeral_public
  pub shared : compute_shared_secret c node ephemeral_private receiver_public ≡ ok secret

-- A message that may be encrypted.
pub record IsMessage (c : Consts) (message : Bytes) : Type 0 where
  pub nonempty : 0 < length message
  pub not_large : length message ≤ 0x7fffffff
  pub allowed : length message ≤ c.max_raw_data_size

-- The types that one recipient's messages have.
pub data IsSingle : EncryptionType → Type 0 where
  is_basic : IsSingle basic
  is_with_length : IsSingle with_length

module _ (c : Consts) where
  abbrev pub aad_of : ℕ → Bytes → Bytes → Bytes
  aad_of type preamble ephemeral_public =
      preamble
      ++ (be_bytes 1 c.version_v1
          ++ (be_bytes 1 c.suite_secp256k1_aes256gcm_sha256
              ++ (be_bytes 1 type ++ (ephemeral_public ++ []))))

  -- The bytes of a message.
  abbrev pub written : ℕ → Bytes → Bytes → Bytes → Bytes → Bytes → Bytes → Bytes
  written type preamble ephemeral_public iv tag prefix body =
      preamble
      ++ (be_bytes 1 c.version_v1
          ++ (be_bytes 1 c.suite_secp256k1_aes256gcm_sha256
              ++ (be_bytes 1 type
                  ++ (ephemeral_public ++ (iv ++ (tag ++ (prefix ++ (body ++ []))))))))

  pub length-written :
      (type : ℕ) (preamble ephemeral_public iv tag prefix body : Bytes)
      → length ephemeral_public ≡ 33
      → length (written type preamble ephemeral_public iv tag prefix body)
        ≡ length preamble + (36 + length iv + length tag + length (prefix ++ body))
  length-written type preamble ephemeral_public iv tag prefix body sized =
      simp (length-append, append-nil) (omega (arith, length-be_bytes, sized))

  pub written-append :
      (type : ℕ) (preamble ephemeral_public iv tag prefix body rest : Bytes)
      → written type preamble ephemeral_public iv tag prefix body ++ rest
        ≡ preamble
          ++ (be_bytes 1 c.version_v1
              ++ (be_bytes 1 c.suite_secp256k1_aes256gcm_sha256
                  ++ (be_bytes 1 type
                      ++ (ephemeral_public ++ (iv ++ (tag ++ (prefix ++ (body ++ rest))))))))
  written-append type preamble ephemeral_public iv tag prefix body rest =
      simp (append_assoc, append-nil)

module _ (c : Consts) {S : Type 0} (node : Node S) where
  abbrev pub key_of : Bytes → Bytes
  key_of secret = derive_shared_key c node secret [] info c.key_size

  abbrev pub sealed : ℕ → Bytes → Bytes → Bytes → Bytes → Bytes → Bytes × Bytes
  sealed type preamble ephemeral_public secret iv message =
      node.cipher (key_of secret) iv (some (aad_of c type preamble ephemeral_public)) message

module _ (c : Consts) (doc : IsDocumentedSingle c) {S : Type 0} (node : Node S) where
  pub single_byte : (t : EncryptionType) → IsSingle t → type_number c t < 256
  single_byte basic is_basic = doc.basic_byte
  single_byte with_length is_with_length = doc.with_length_byte
  single_byte multiple s = elim s [ ]

  pub not_multiple :
      (t : EncryptionType) → IsSingle t → (type_number c t == c.type_multiple) ≡ false
  not_multiple basic is_basic = ne→== _ _ doc.basic_single
  not_multiple with_length is_with_length = ne→== _ _ doc.with_length_single
  not_multiple multiple s = elim s [ ]

  chosen :
      (t : EncryptionType)
      → IsSingle t
      → (if type_number c t == c.type_basic then basic else with_length) ≡ t
  chosen basic is_basic = rw (eq→== c.type_basic c.type_basic refl) refl
  chosen with_length is_with_length =
      rw (ne→== c.type_with_length c.type_basic (λ e. doc.types_differ (sym e))) refl
  chosen multiple s = elim s [ ]

  module _ (aead : IsAead c node)
      (receiver_private receiver_public ephemeral_private ephemeral_public secret : Bytes)
      (exchange : IsExchange c node receiver_private receiver_public ephemeral_private
        ephemeral_public secret)
      (iv preamble message : Bytes) (valid : IsMessage c message) where
    pub encrypt-written :
        IsSecp256k1 node
        → (t : EncryptionType) (prefix : Bytes) → IsSingle t
        → length_buffer c t (length message) ≡ ok prefix
        → encrypt c node (type_number c t) receiver_public message preamble ephemeral_private iv
          ≡ ok (
              written c
                (type_number c t)
                preamble
                ephemeral_public
                iv
                (sealed c node (type_number c t) preamble ephemeral_public secret iv message).1
                prefix
                (sealed c node (type_number c t) preamble ephemeral_public secret iv message).0)
    unfolding encrypt
    encrypt-written law t prefix single prefixed =
        let sealing = sealed c node (type_number c t) preamble ephemeral_public secret iv message in
        rw
          (
            not_multiple t single,
            pos→==0 (length message) valid.nonempty,
            le→ltb 0x7fffffff (length message) valid.not_large,
            chosen t single,
            write-alloc 1 (type_number c t) 1 refl (omega (arith, single_byte t single)),
            write-alloc 1 c.version_v1 1 refl (omega (arith, doc.version_byte)),
            write-alloc 1 c.suite_secp256k1_aes256gcm_sha256 1 refl (omega (arith, doc.suite_byte)),
            le→ltb c.max_raw_data_size (length message) valid.allowed,
            exchange.ephemeral,
            public_key_normalized c node law receiver_private receiver_public exchange.receiver,
            exchange.shared,
            aead.cipher_size,
            prefixed,
            le→ltb (length message + 1024) (length message) (omega arith),
          )
          refl

    pub decrypt_parsed-written :
        IsSecp256k1 node
        → (t : EncryptionType) (with_prefix : Bool) (n : ℤ) (rest : Bytes) → IsSingle t
        → length iv ≡ c.iv_size
        → decrypt_parsed c node receiver_private (
            parsed_message c
              (type_number c t)
              with_prefix
              preamble
              ephemeral_public
              iv
              (sealed c node (type_number c t) preamble ephemeral_public secret iv message).1
              n
              (sealed c node (type_number c t) preamble ephemeral_public secret iv message).0
              rest)
          ≡ ok (message, consumed n (fixed_overhead c with_prefix))
    unfolding decrypt_parsed decrypt_with_components decipher_all
    decrypt_parsed-written law t with_prefix n rest single iv_sized =
        let aad = aad_of c (type_number c t) preamble ephemeral_public in
        let key = key_of c node secret in
        rw
          (
            public_key_normalized c node law ephemeral_private ephemeral_public exchange.ephemeral,
            write-alloc 1 (type_number c t) 1 refl (omega (arith, single_byte t single)),
            write-alloc 1 c.version_v1 1 refl (omega (arith, doc.version_byte)),
            write-alloc 1 c.suite_secp256k1_aes256gcm_sha256 1 refl (omega (arith, doc.suite_byte)),
            decrypt_with_components,
            public_key_normalized c node law ephemeral_private ephemeral_public exchange.ephemeral,
            compute_shared_secret_symmetric c node law receiver_private ephemeral_private
                receiver_public ephemeral_public exchange.receiver exchange.ephemeral,
            exchange.shared,
            eq→== _ _ (aead.tag_size key iv (some aad) message),
            eq→== (length iv) c.iv_size iv_sized,
            decipher_all,
            aead.cipher_size key iv (some aad) message,
            pos→==0 (length message) valid.nonempty,
            aead.decipher-cipher key iv (some aad) message,
            pos→==0 (length message) valid.nonempty,
          )
          refl
