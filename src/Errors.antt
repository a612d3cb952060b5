-- ===== src/Errors.antt =====
-- What the modelled code throws, and the result of code that may throw.
-- The `ECIESError` types are those of ECIESErrorTypeEnum that the modelled code names;
-- `range_error` is the error of Node's Buffer accessors, `syntax_error` that of `BigInt`,
-- `type_error` that of a call on `undefined`, `length_error` the plain one of the service's length computations, and
-- `ecdh_invalid_public_key` the one with the code ERR_CRYPTO_ECDH_INVALID_PUBLIC_KEY.
use node_ecies_lib.Prelude.{Bool, true, false, ◌≡◌, refl, ◌⊎◌, inl, inr}

pub data Error : Type 0 where
  range_error : Error
  syntax_error : Error
  length_error : Error
  type_error : Error
  ecdh_invalid_public_key : Error
  crypto_error : Error
  decryption_failed : Error
  invalid_encryption_type : Error
  multiple_type_not_supported : Error
  cannot_encrypt_empty_data : Error
  message_too_large : Error
  invalid_data_length : Error
  invalid_recipient_public_key : Error
  secret_computation_failed : Error
  encrypted_size_exceeds_expected : Error
  invalid_version : Error
  invalid_cipher_suite : Error
  invalid_encrypted_data_length : Error
  invalid_ephemeral_public_key : Error
  invalid_iv_length : Error
  invalid_auth_tag_length : Error
  invalid_encrypted_key_length : Error
  too_many_recipients : Error
  file_size_too_large : Error
  invalid_multiple_recipient_id_size : Error
  message_length_mismatch : Error
  recipient_not_found : Error
  private_key_not_loaded : Error
  invalid_signature : Error
  invalid_recipient_count : Error
  recipient_key_count_mismatch : Error

-- `error instanceof ECIESError`
abbrev pub is_ecies_error : Error → Bool
is_ecies_error range_error = false
is_ecies_error syntax_error = false
is_ecies_error length_error = false
is_ecies_error type_error = false
is_ecies_error ecdh_invalid_public_key = false
is_ecies_error crypto_error = false
is_ecies_error e = true

pub data Result {ℓ} (A : Type ℓ) : Type ℓ where
  ok : A → Result A
  err : Error → Result A

-- `if (b) throw e;`
abbrev pub throw_if : Bool → Error → Result (Unit {0})
throw_if true e = err e
throw_if false e = ok tt

-- The value of a result, or a default.
abbrev pub value_or {ℓ} : {A : Type ℓ} → Result A → A → A
value_or (ok a) d = a
value_or (err e) d = d

infixl 5 ◌>>=◌ ◌>>◌
abbrev pub ◌>>=◌ {ℓ κ} : {A : Type ℓ} {B : Type κ} → Result A → (A → Result B) → Result B
err thrown >>= next = err thrown
ok value >>= next = next value

abbrev pub ◌>>◌ {κ} : {B : Type κ} → Result (Unit {0}) → Result B → Result B
first >> second = first >>= λ _. second

-- To split on a computed result and keep the equation.
pub Result-cases {ℓ} :
    {A : Type ℓ} (r : Result A) → ((a : A) × (r ≡ ok a)) ⊎ ((e : Error) × (r ≡ err e))
Result-cases (ok a) = inl (a, refl)
Result-cases (err e) = inr (e, refl)
