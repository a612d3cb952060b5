-- ===== src/SingleRecipient/Reading.antt =====
-- `parse_encrypted_message` on a buffer that holds the fields of a message from an offset on.
use node_ecies_lib.Prelude.{
  ℕ, ◌+◌, ◌^◌, ◌<◌, ◌≤◌, ◌≡◌, ◌≢◌, refl, sym, ap, subst, ◌∙◌, Bool, true, false, Option, none, [],
  ◌++◌, length, length-append, append-nil, ◌==◌, eq→==, le→ltb, lt→ltb, arith,
}
use node_ecies_lib.Prelude.Int.{ℤ, pos, negsuc}
use node_ecies_lib.Errors.{Result, ok}
use node_ecies_lib.Buffer.{Bytes, subarray, be_bytes}
use node_ecies_lib.Buffer.Laws.{length-be_bytes}
use node_ecies_lib.Buffer.Fields.{At, At-next, At-subarray, At-read, At-from}
use node_ecies_lib.Ecies.{Consts}
use node_ecies_lib.CryptoCore.Normal.{IsPoint, normalize-IsPoint}
use node_ecies_lib.SingleRecipient.Parse.{
  ParsedMessage, differs, length_option, check_components, fixed_overhead, parse_data,
  parse_components, parse_encrypted_message,
}

-- The sizes of the format that `encrypt` documents, in bytes, and the numbers of its types.
pub record IsDocumentedSingle (c : Consts) : Type 0 where
  pub version_one : c.version_size ≡ 1
  pub suite_one : c.cipher_suite_size ≡ 1
  pub compressed_key : c.public_key_length ≡ 33
  pub length_eight : c.with_length_data_length_size ≡ 8
  pub basic_overhead : c.basic_fixed_overhead_size ≡ 36 + c.iv_size + c.auth_tag_size
  pub with_length_overhead : c.with_length_fixed_overhead_size ≡ c.basic_fixed_overhead_size + 8
  pub version_byte : c.version_v1 < 256
  pub suite_byte : c.suite_secp256k1_aes256gcm_sha256 < 256
  pub basic_byte : c.type_basic < 256
  pub with_length_byte : c.type_with_length < 256
  pub basic_single : c.type_basic ≢ c.type_multiple
  pub with_length_single : c.type_with_length ≢ c.type_multiple
  pub types_differ : c.type_basic ≢ c.type_with_length

module _ (c : Consts) (type : ℕ) (with_prefix : Bool) (preamble ephemeral iv tag : Bytes) where
  abbrev pub parsed_message : ℤ → Bytes → Bytes → ParsedMessage
  parsed_message n body rest = record {
    header = record {
      preamble = preamble;
      encryption_type = type;
      ephemeral_public_key = ephemeral;
      iv = iv;
      auth_tag = tag;
      data_length = n;
      header_size = fixed_overhead c with_prefix;
    };
    data_ = body;
    remainder = rest;
  }

module _ (c : Consts) (doc : IsDocumentedSingle c) {data_ : Bytes} where
  pub parse_data-with_length :
      (offset n : ℕ) (body rest : Bytes)
      → length body ≡ n
      → 0 < n
      → n < 256 ^ 8
      → At data_ offset (be_bytes 8 n ++ (body ++ rest))
      → parse_data c true data_ offset none ≡ ok (pos n, body, rest)
  unfolding parse_data differs
  parse_data-with_length offset n body rest sized positive fits at =
      let after = At-next (be_bytes 8 n) (body ++ rest) 8 at (length-be_bytes 8 n) in
      let prefix : At (be_bytes 8 n) 0 (be_bytes 8 n ++ []) = record { at = sym (append-nil _) } in
      rw
        (
          doc.length_eight,
          At-subarray (be_bytes 8 n) (body ++ rest) 8 at (length-be_bytes 8 n),
          At-read 8 n [] (omega arith) fits prefix,
          lt→ltb 0 n positive,
          At-subarray body rest n after sized,
          eq→== (length body) n sized,
          At-from rest (At-next body rest n after sized),
        )
        refl

  pub parse_data-basic :
      (offset : ℕ) (body : Bytes)
      → At data_ offset body
      → parse_data c false data_ offset none ≡ ok (negsuc 0, body, [])
  unfolding parse_data length_option
  parse_data-basic offset body at = rw (At-from body at) refl

  module _ (type : ℕ) (with_prefix : Bool) (preamble ephemeral iv tag : Bytes) where
    parse_components-At :
        (offset : ℕ) (tail : Bytes) (n : ℤ) (body rest : Bytes)
        → IsPoint ephemeral
        → length ephemeral ≡ 33
        → length iv ≡ c.iv_size
        → length tag ≡ c.auth_tag_size
        → At data_ offset (ephemeral ++ (iv ++ (tag ++ tail)))
        → ((at : ℕ)
            → At data_ at tail
            → parse_data c with_prefix data_ at none ≡ ok (n, body, rest))
        → parse_components c type with_prefix preamble data_ offset none
          ≡ ok (parsed_message c type with_prefix preamble ephemeral iv tag n body rest)
    unfolding parse_components check_components
    parse_components-At offset tail n body rest point key_sized iv_sized tag_sized at next =
        let key_is : length ephemeral ≡ c.public_key_length = key_sized ∙ sym doc.compressed_key in
        let at_iv = At-next ephemeral (iv ++ (tag ++ tail)) c.public_key_length at key_is in
        let at_tag = At-next iv (tag ++ tail) c.iv_size at_iv iv_sized in
        let at_tail = At-next tag tail c.auth_tag_size at_tag tag_sized in
        rw
          (
            At-subarray ephemeral (iv ++ (tag ++ tail)) c.public_key_length at key_is,
            normalize-IsPoint c ephemeral point,
            At-subarray iv (tag ++ tail) c.iv_size at_iv iv_sized,
            At-subarray tag tail c.auth_tag_size at_tag tag_sized,
            next _ at_tail,
            eq→== (length ephemeral) c.public_key_length key_is,
            eq→== (length iv) c.iv_size iv_sized,
            eq→== (length tag) c.auth_tag_size tag_sized,
          )
          refl

    module _ (ensure_type : ℕ → Result ℕ) where
      -- The buffer holds the preamble, the fixed fields and `tail`, which the type tells how to read.
      pub parse_encrypted_message-At :
          (want : Option ℕ) (tail : Bytes) (n : ℤ) (body rest : Bytes)
          → ensure_type type ≡ ok type
          → differs want type ≡ false
          → type < 256
          → (type == c.type_multiple) ≡ false
          → (type == c.type_with_length) ≡ with_prefix
          → fixed_overhead c with_prefix ≤ 36 + c.iv_size + c.auth_tag_size + length tail
          → IsPoint ephemeral
          → length ephemeral ≡ 33
          → length iv ≡ c.iv_size
          → length tag ≡ c.auth_tag_size
          → data_
            ≡ preamble
              ++ (be_bytes 1 c.version_v1
                  ++ (be_bytes 1 c.suite_secp256k1_aes256gcm_sha256
                      ++ (be_bytes 1 type ++ (ephemeral ++ (iv ++ (tag ++ tail))))))
          → ((at : ℕ)
              → At data_ at tail
              → parse_data c with_prefix data_ at none ≡ ok (n, body, rest))
          → parse_encrypted_message c ensure_type want data_ (length preamble) none
            ≡ ok (parsed_message c type with_prefix preamble ephemeral iv tag n body rest)
      unfolding parse_encrypted_message
      parse_encrypted_message-At want tail n body rest ensured same byte single prefixed enough
            point key_sized iv_sized tag_sized holds next =
          let fields = ephemeral ++ (iv ++ (tag ++ tail)) in
          let typed = be_bytes 1 type ++ fields in
          let suited = be_bytes 1 c.suite_secp256k1_aes256gcm_sha256 ++ typed in
          let versioned = be_bytes 1 c.version_v1 ++ suited in
          let at_start : At data_ 0 (preamble ++ versioned) = record { at = holds } in
          let zero_add : 0 + length preamble ≡ length preamble = omega arith in
          let preamble_is : subarray data_ 0 (length preamble) ≡ preamble =
            ap (λ (k : ℕ). subarray data_ 0 k) (sym zero_add)
            ∙ At-subarray preamble versioned (length preamble) at_start refl in
          let at_version : At data_ (length preamble) versioned =
            subst (λ (k : ℕ). At data_ k versioned) zero_add
              (At-next preamble versioned (length preamble) at_start refl) in
          let at_suite =
            At-next (be_bytes 1 c.version_v1) suited c.version_size at_version
              (length-be_bytes 1 _ ∙ sym doc.version_one) in
          let at_type =
            At-next (be_bytes 1 c.suite_secp256k1_aes256gcm_sha256) typed c.cipher_suite_size
              at_suite (length-be_bytes 1 _ ∙ sym doc.suite_one) in
          let at_key = At-next (be_bytes 1 type) fields 1 at_type (length-be_bytes 1 _) in
          let long : fixed_overhead c with_prefix ≤ length data_ = omega (
            arith,
            enough,
            length-append preamble versioned,
            length-append (be_bytes 1 c.version_v1) suited,
            length-append (be_bytes 1 c.suite_secp256k1_aes256gcm_sha256) typed,
            length-append (be_bytes 1 type) fields,
            length-append ephemeral (iv ++ (tag ++ tail)),
            length-append iv (tag ++ tail),
            length-append tag tail,
            length-be_bytes,
            key_sized,
            iv_sized,
            tag_sized,
            ap length holds,
          ) in
          rw
            (
              preamble_is,
              At-read 1 c.version_v1 suited (omega arith) (omega (arith, doc.version_byte))
                  at_version,
              eq→== c.version_v1 c.version_v1 refl,
              At-read 1 c.suite_secp256k1_aes256gcm_sha256 typed (omega arith)
                  (omega (arith, doc.suite_byte)) at_suite,
              eq→== c.suite_secp256k1_aes256gcm_sha256 c.suite_secp256k1_aes256gcm_sha256 refl,
              At-read 1 type fields (omega arith) (omega arith) at_type,
              ensured,
              same,
              single,
              prefixed,
              le→ltb (length data_) (fixed_overhead c with_prefix) long,
            )
            (parse_components-At (length preamble + c.version_size + c.cipher_suite_size + 1) tail n
              body rest point key_sized iv_sized tag_sized at_key next)
