-- ===== src/MultiRecipient/Keys.antt =====
-- `encryptKey` and `decryptKey` of services/ecies/multi-recipient.ts: the message key, encrypted for
-- one recipient. Node's crypto module, HKDF and the normalization of public keys are a parameter.
use node_ecies_lib.Prelude.{
  ℕ, ◌+◌, ◌-◌, ◌≡◌, refl, sym, ap, ◌∙◌, not, Option, ◌++◌, length, length-append, append_assoc,
  take, drop, take-append, drop-append, ◌==◌, eq→==, arith,
}
use node_ecies_lib.Errors.{
  Error, Result, ok, err, ◌>>=◌, ◌>>◌, throw_if, invalid_encrypted_key_length, invalid_data_length,
  invalid_recipient_public_key, secret_computation_failed, ecdh_invalid_public_key,
}
use node_ecies_lib.Buffer.{Bytes, subarray, subarray_from}
use node_ecies_lib.Ecies.{Consts}

-- normalizePublicKey and deriveSharedKey of the crypto core; setPrivateKey and computeSecret of
-- createECDH; createCipheriv and createDecipheriv with update, final and the authentication tag.
pub record Crypto : Type 0 where
  pub normalize_public_key : Bytes → Result Bytes
  pub derive_shared_key : Bytes → Bytes
  pub compute_secret : Bytes → Bytes → Result Bytes
  pub cipher : Bytes → Bytes → Option Bytes → Bytes → Bytes × Bytes
  pub decipher : Bytes → Bytes → Bytes → Option Bytes → Bytes → Result Bytes

-- What the catch of `encryptKey` throws.
abbrev pub secret_error : Error → Error
secret_error ecdh_invalid_public_key = invalid_recipient_public_key
secret_error e = secret_computation_failed

abbrev pub catch_secret : Result Bytes → Result Bytes
catch_secret (ok s) = ok s
catch_secret (err e) = err (secret_error e)

module _ (c : Consts) (crypto : Crypto) where
  -- `iv` is what randomBytes returns.
  unfoldable pub encrypt_key : Bytes → Bytes → Bytes → Bytes → Option Bytes → Result Bytes
  encrypt_key iv receiver_public_key message_symmetric_key ephemeral_private_key aad = do
    shared_secret ← catch_secret (
        crypto.normalize_public_key receiver_public_key >>= λ normalized.
        crypto.compute_secret ephemeral_private_key normalized)
    let sealed = crypto.cipher (crypto.derive_shared_key shared_secret) iv aad message_symmetric_key
    ok (iv ++ (sealed.1 ++ sealed.0))

  unfoldable pub decrypt_key : Bytes → Bytes → Bytes → Option Bytes → Result Bytes
  unfolding subarray subarray_from
  decrypt_key private_key encrypted_key ephemeral_public_key aad = do
    throw_if (not (length encrypted_key == c.encrypted_key_size)) invalid_encrypted_key_length
    let iv = subarray encrypted_key 0 c.iv_size
    let auth_tag = subarray encrypted_key c.iv_size (c.iv_size + c.auth_tag_size)
    let encrypted = subarray_from encrypted_key (c.iv_size + c.auth_tag_size)
    normalized ← crypto.normalize_public_key ephemeral_public_key
    shared_secret ← crypto.compute_secret private_key normalized
    decrypted ← crypto.decipher (crypto.derive_shared_key shared_secret) iv auth_tag aad encrypted
    throw_if (not (length decrypted == c.key_size)) invalid_data_length
    ok decrypted

-- AES-GCM: deciphering undoes ciphering, the ciphertext is as long as the plaintext, and the tag has
-- its size.
pub record IsGcm (c : Consts) (crypto : Crypto) : Type 0 where
  pub decipher-cipher :
      (key iv : Bytes) (aad : Option Bytes) (m : Bytes)
      → crypto.decipher key iv (crypto.cipher key iv aad m).1 aad (crypto.cipher key iv aad m).0
        ≡ ok m
  pub cipher_size :
      (key iv : Bytes) (aad : Option Bytes) (m : Bytes)
      → length (crypto.cipher key iv aad m).0 ≡ length m
  pub tag_size :
      (key iv : Bytes) (aad : Option Bytes) (m : Bytes)
      → length (crypto.cipher key iv aad m).1 ≡ c.auth_tag_size
  pub sizes : c.encrypted_key_size ≡ c.iv_size + c.auth_tag_size + c.key_size

-- Two key pairs that agree on a secret.
pub record DoAgree (crypto : Crypto)
    (receiver_private receiver_public ephemeral_private ephemeral_public secret : Bytes)
    : Type 0 where
  pub receiver_normalized : Bytes
  pub ephemeral_normalized : Bytes
  pub normalizes_receiver : crypto.normalize_public_key receiver_public ≡ ok receiver_normalized
  pub normalizes_ephemeral : crypto.normalize_public_key ephemeral_public ≡ ok ephemeral_normalized
  pub here : crypto.compute_secret ephemeral_private receiver_normalized ≡ ok secret
  pub there : crypto.compute_secret receiver_private ephemeral_normalized ≡ ok secret

pub cut_front : (a b : Bytes) (n : ℕ) → length a ≡ n → subarray (a ++ b) 0 n ≡ a
unfolding subarray
cut_front a b n h = take-append a b (n - 0) (omega arith)

pub cut_middle :
    (a b d : Bytes) (n m : ℕ) → length a ≡ n → length b ≡ m → subarray (a ++ (b ++ d)) n (n + m) ≡ b
unfolding subarray
cut_middle a b d n m h k =
    ap (take (n + m - n)) (drop-append a (b ++ d) n h) ∙ take-append b d (n + m - n) (omega arith)

pub cut_back :
    (a b d : Bytes) (n m : ℕ)
    → length a ≡ n
    → length b ≡ m
    → subarray_from (a ++ (b ++ d)) (n + m) ≡ d
unfolding subarray_from
cut_back a b d n m h k =
    ap (drop (n + m)) (sym (append_assoc a b d))
    ∙ drop-append (a ++ b) d (n + m) (omega (arith, length-append a b))

module _ (c : Consts) (crypto : Crypto) (gcm : IsGcm c crypto) where
  -- A key of the right size, encrypted for a receiver with whom the ephemeral keys agree, has the
  -- configured size and is decrypted by the receiver to itself.
  pub decrypt_key-encrypt_key :
      (receiver_private receiver_public ephemeral_private ephemeral_public secret iv key : Bytes)
      (aad : Option Bytes)
      → DoAgree crypto receiver_private receiver_public ephemeral_private ephemeral_public secret
      → length iv ≡ c.iv_size
      → length key ≡ c.key_size
      → (e : Bytes) × ((encrypt_key c crypto iv receiver_public key ephemeral_private aad ≡ ok e)
          × ((length e ≡ c.encrypted_key_size)
              × (decrypt_key c crypto receiver_private e ephemeral_public aad ≡ ok key)))
  unfolding encrypt_key decrypt_key
  decrypt_key-encrypt_key receiver_private receiver_public ephemeral_private ephemeral_public secret
        iv key aad agree iv_sized key_sized =
      let symmetric = crypto.derive_shared_key secret in
      let tag = (crypto.cipher symmetric iv aad key).1 in
      let body = (crypto.cipher symmetric iv aad key).0 in
      let tag_sized = gcm.tag_size symmetric iv aad key in
      let size : length (iv ++ (tag ++ body)) ≡ c.encrypted_key_size = omega (
        arith,
        length-append iv (tag ++ body),
        length-append tag body,
        tag_sized,
        gcm.cipher_size symmetric iv aad key,
        gcm.sizes,
      ) in
      (
        iv ++ (tag ++ body),
        (
          rw (agree.normalizes_receiver, agree.here) refl,
          (
            size,
            rw
                (
                  eq→== (length (iv ++ (tag ++ body))) c.encrypted_key_size size,
                  agree.normalizes_ephemeral,
                  agree.there,
                  cut_front iv (tag ++ body) c.iv_size iv_sized,
                  cut_middle iv tag body c.iv_size c.auth_tag_size iv_sized tag_sized,
                  cut_back iv tag body c.iv_size c.auth_tag_size iv_sized tag_sized,
                  gcm.decipher-cipher symmetric iv aad key,
                  eq→== (length key) c.key_size key_sized,
                )
                refl,
          ),
        ),
      )
