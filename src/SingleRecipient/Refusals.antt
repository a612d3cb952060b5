-- ===== src/SingleRecipient/Refusals.antt =====
-- What the operations on one recipient's messages refuse, and with which errors.
use node_ecies_lib.Prelude.{
  ℕ, ◌+◌, ◌≡◌, ◌≢◌, refl, sym, ap, ◌∙◌, eq→==, ◌⊎◌, inl, inr, Bool, true, Option, [], length, ◌==◌,
  arith,
}
use node_ecies_lib.Prelude.Int.{ℤ, pos}
use node_ecies_lib.Errors.{Error, Result, ok, err, ◌>>=◌, value_or, is_ecies_error}
use node_ecies_lib.Buffer.{Bytes, subarray, read_uint_be}
use node_ecies_lib.Ecies.{Consts}
use node_ecies_lib.CryptoCore.{Node, normalize_public_key}
use node_ecies_lib.SingleRecipient.Parse.{
  ParsedMessage, parse_data, check_components, parse_components, parse_encrypted_message,
}
use node_ecies_lib.SingleRecipient.Decrypt.{
  ecies_error, catch_other, decrypt_parsed, decrypt_with_header_ex, decrypt_with_header,
}

-- An error that is an `ECIESError`.
abbrev pub IsEciesError : Error → Type 0
IsEciesError e = is_ecies_error e ≡ true

ecies_error-IsEciesError : (e : Error) → IsEciesError (ecies_error e)
ecies_error-IsEciesError e = ground arith

ecies_error-idempotent : (e : Error) → ecies_error (ecies_error e) ≡ ecies_error e
ecies_error-idempotent e = ground arith

module _ {A : Type 0} where
  catch_other-IsEciesError : (r : Result A) (e : Error) → catch_other r ≡ err e → IsEciesError e
  catch_other-IsEciesError (ok a) e h = cc
  catch_other-IsEciesError (err d) e h = ground (arith, ecies_error-IsEciesError d)

module _ {B : Type 0} where
  without_count :
      (r : Result (Bytes × B))
      → catch_other (catch_other r >>= λ x. ok x.0) ≡ (catch_other r >>= λ x. ok x.0)
  without_count (ok r) = refl
  without_count (err e) = ap err (ecies_error-idempotent e)

-- What a parsed message is known to be: its fields have their sizes, and a length that was read is
-- that of the data.
pub record IsParsed (c : Consts) (p : ParsedMessage) : Type 0 where
  pub key_sized : length p.header.ephemeral_public_key ≡ c.public_key_length
  pub iv_sized : length p.header.iv ≡ c.iv_size
  pub tag_sized : length p.header.auth_tag ≡ c.auth_tag_size
  pub one_recipient : p.header.encryption_type ≢ c.type_multiple
  pub length_kept :
      p.header.encryption_type ≡ c.type_with_length → p.header.data_length ≡ pos (length p.data_)

module _ (c : Consts) where
  parse_data_sized :
      (data_ : Bytes) (offset : ℕ) (expected : Option ℕ) (r : ℤ × Bytes × Bytes)
      → parse_data c true data_ offset expected ≡ ok r
      → r.0 ≡ pos (length r.1)
  unfolding parse_data
  parse_data_sized data_ offset expected r h = ground arith

module _ (c : Consts) {S : Type 0} (node : Node S) where
  module _ (ensure_type : ℕ → Result ℕ) where
    -- Every error of `decrypt_with_header_ex`, and every error of `decrypt_with_header`, is an
    -- `ECIESError`, whatever the input and whatever was thrown inside.
    pub decrypt_with_header_ex-IsEciesError :
        (want : Option ℕ) (private_key data_ : Bytes) (preamble_size : ℕ) (expected : Option ℕ)
        (e : Error)
        → (decrypt_with_header_ex c node ensure_type want private_key data_ preamble_size expected
            ≡ err e)
          ⊎ (decrypt_with_header c node ensure_type want private_key data_ preamble_size expected
              ≡ err e)
        → IsEciesError e
    unfolding decrypt_with_header_ex decrypt_with_header
    decrypt_with_header_ex-IsEciesError want private_key data_ preamble_size expected e (inl h) =
        catch_other-IsEciesError
          (parse_encrypted_message c ensure_type want data_ preamble_size expected >>= λ parsed.
            decrypt_parsed c node private_key parsed)
          e h
    decrypt_with_header_ex-IsEciesError want private_key data_ preamble_size expected e (inr h) =
        catch_other-IsEciesError
          (decrypt_with_header_ex c node ensure_type want private_key data_ preamble_size expected
            >>= λ r. ok r.0)
          e h

    checked_fields :
        (type : ℕ) (b : Bool) (preamble key iv tag : Bytes) (r : ℤ × Bytes × Bytes)
        (p : ParsedMessage)
        → check_components c type b preamble key iv tag r ≡ ok p
        → ((length p.header.ephemeral_public_key ≡ c.public_key_length)
            × (length p.header.iv ≡ c.iv_size)
            × (length p.header.auth_tag ≡ c.auth_tag_size))
          × ((p.header.encryption_type ≡ type) × (r ≡ (p.header.data_length, p.data_, p.remainder)))
    unfolding check_components
    checked_fields type b preamble key iv tag r p h = ground arith

    components_fields :
        (type : ℕ) (b : Bool) (preamble data_ : Bytes) (offset : ℕ) (expected : Option ℕ)
        (p : ParsedMessage)
        → parse_components c type b preamble data_ offset expected ≡ ok p
        → ((length p.header.ephemeral_public_key ≡ c.public_key_length)
            × (length p.header.iv ≡ c.iv_size)
            × (length p.header.auth_tag ≡ c.auth_tag_size))
          × ((p.header.encryption_type ≡ type)
              × (parse_data c b data_
                    (offset + c.public_key_length + c.iv_size + c.auth_tag_size)
                    expected
                  ≡ ok (p.header.data_length, p.data_, p.remainder)))
    unfolding parse_components
    components_fields type b preamble data_ offset expected p h =
        let iv_at = offset + c.public_key_length in
        let tag_at = iv_at + c.iv_size in
        let length_at = tag_at + c.auth_tag_size in
        ground (
          arith,
          checked_fields type b preamble
              (value_or (normalize_public_key c (subarray data_ offset iv_at)) [])
              (subarray data_ iv_at tag_at) (subarray data_ tag_at length_at)
              (value_or (parse_data c b data_ length_at expected) (pos 0, [], [])) p,
        )

    components-IsParsed :
        (type : ℕ) (b : Bool) (preamble data_ : Bytes) (offset : ℕ) (expected : Option ℕ)
        (p : ParsedMessage)
        → type ≢ c.type_multiple
        → (type == c.type_with_length) ≡ b
        → parse_components c type b preamble data_ offset expected ≡ ok p
        → IsParsed c p
    components-IsParsed type b preamble data_ offset expected p one is h =
        let fields = components_fields type b preamble data_ offset expected p h in
        record {
          key_sized = fields.0.0;
          iv_sized = fields.0.1;
          tag_sized = fields.0.2;
          one_recipient = λ e. one (sym fields.1.0 ∙ e);
          length_kept = λ with_length.
              parse_data_sized c data_ (offset + c.public_key_length + c.iv_size + c.auth_tag_size)
                expected (p.header.data_length, p.data_, p.remainder)
                (ap
                    (λ (k : Bool).
                      parse_data c k data_
                        (offset + c.public_key_length + c.iv_size + c.auth_tag_size) expected)
                    (sym (eq→== type c.type_with_length (sym fields.1.0 ∙ with_length)) ∙ is)
                  ∙ fields.1.1);
        }

    -- What `parse_encrypted_message` returns is well-formed.
    pub parse_encrypted_message-IsParsed :
        (want : Option ℕ) (data_ : Bytes) (preamble_size : ℕ) (expected : Option ℕ)
        (p : ParsedMessage)
        → parse_encrypted_message c ensure_type want data_ preamble_size expected ≡ ok p
        → IsParsed c p
    unfolding parse_encrypted_message
    parse_encrypted_message-IsParsed want data_ preamble_size expected p h =
        let type_at = preamble_size + c.version_size + c.cipher_suite_size in
        let type = value_or (read_uint_be 1 data_ type_at >>= ensure_type) 0 in
        components-IsParsed type (type == c.type_with_length) (subarray data_ 0 preamble_size) data_
          (type_at + 1) expected p (ground arith) refl (ground arith)

    -- What `decrypt_with_header` returns is what `decrypt_with_header_ex` returns without the count
    -- of bytes.
    pub decrypt_with_header-ex :
        (want : Option ℕ) (private_key data_ : Bytes) (preamble_size : ℕ) (expected : Option ℕ)
        → decrypt_with_header c node ensure_type want private_key data_ preamble_size expected ≡ (
            decrypt_with_header_ex c node ensure_type want private_key data_ preamble_size expected
            >>= λ r. ok r.0)
    unfolding decrypt_with_header decrypt_with_header_ex
    decrypt_with_header-ex want private_key data_ preamble_size expected = without_count (
        parse_encrypted_message c ensure_type want data_ preamble_size expected >>= λ parsed.
        decrypt_parsed c node private_key parsed)
