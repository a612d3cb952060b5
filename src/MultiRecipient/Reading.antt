-- ===== src/MultiRecipient/Reading.antt =====
-- `parse_header` on a buffer in which the fields of a header stand where it looks for them.
use node_ecies_lib.Prelude.{
  ℕ, ◌+◌, ◌*◌, ◌/◌, ◌%◌, ◌^◌, ◌<◌, ◌≤◌, ◌≡◌, refl, sym, ap, ◌∙◌, false, some, List, [], ◌∷◌, ◌++◌,
  append_assoc, length, leb, le→ltb, lt→ltb, pos→==0, eq→==, arith,
}
use node_ecies_lib.Prelude.Bits.{bit_and_ones}
use node_ecies_lib.Prelude.Int.{pos}
use node_ecies_lib.Errors.{ok}
use node_ecies_lib.Buffer.{concat, Bytes, be_bytes, read_uint_be}
use node_ecies_lib.Buffer.Laws.{length-be_bytes}
use node_ecies_lib.Buffer.Fields.{At, At-next, At-subarray, At-le, At-read}
use node_ecies_lib.Ecies.{Consts, IsDocumented, IdProvider, PlatformId}
use node_ecies_lib.MultiRecipient.Layout.{HaveLength, length-concat}
use node_ecies_lib.MultiRecipient.Parse.{
  read_ids, read_keys, from_bytes_all, parse_recipients, parse_lengths, parse_header,
}

read_ids-At :
    (size : ℕ) (bs : List Bytes) (data_ rest : Bytes) (offset : ℕ)
    → HaveLength size bs
    → At data_ offset (concat bs ++ rest)
    → read_ids size data_ (length bs) offset ≡ bs
unfolding read_ids
read_ids-At size [] data_ rest offset sized at = refl
read_ids-At size (b ∷ bs) data_ rest offset (hb, hbs) at =
    let here = split_first b (concat bs) rest at in
    rw
      (
        At-subarray b (concat bs ++ rest) size here hb,
        read_ids-At size bs data_ rest (offset + size) hbs
            (At-next b (concat bs ++ rest) size here hb),
      )
      refl
  where
    split_first :
        (x y z : Bytes) → At data_ offset ((x ++ y) ++ z) → At data_ offset (x ++ (y ++ z))
    split_first x y z h = record { at = h.at ∙ append_assoc x y z }

read_keys-At :
    (size : ℕ) (bs : List Bytes) (data_ rest : Bytes) (offset : ℕ)
    → 0 < size
    → HaveLength size bs
    → At data_ offset (concat bs ++ rest)
    → read_keys size data_ (length bs) offset ≡ ok bs
unfolding read_keys
read_keys-At size [] data_ rest offset p sized at = refl
read_keys-At size (b ∷ bs) data_ rest offset p (hb, hbs) at =
    let here : At data_ offset (b ++ (concat bs ++ rest)) = record {
      at = at.at ∙ append_assoc b (concat bs) rest;
    } in
    let fits = At-le b (concat bs ++ rest) here (omega arith) in
    rw
      (
        lt→leb (length data_) offset (omega arith),
        le→ltb (length data_) (offset + size) (omega arith),
        read_keys-At size bs data_ rest (offset + size) p hbs
            (At-next b (concat bs ++ rest) size here hb),
        At-subarray b (concat bs ++ rest) size here hb,
      )
      refl
  where
    lt→leb : (a b : ℕ) → b < a → leb a b ≡ false
    lt→leb a b h = ground arith

pub product_pos : (a b : ℕ) → 0 < a → 0 < b → 0 < a * b
product_pos a b h k = grind arith

module _ (c : Consts) {T : Type 0} (ids : IdProvider T) where
  pub parse_recipients-At :
      (data_ ephemeral rest : Bytes) (n offset : ℕ) (bs keys : List Bytes)
      (recipients : List (PlatformId T))
      → 0 < c.encrypted_key_size
      → HaveLength c.recipient_id_size bs
      → HaveLength c.encrypted_key_size keys
      → length bs ≡ length keys
      → 0 < length bs
      → from_bytes_all ids bs ≡ ok recipients
      → At data_ offset (concat bs ++ (concat keys ++ rest))
      → parse_recipients c ids data_ ephemeral n (length bs) c.recipient_id_size offset
        ≡ ok (record {
          data_length = pos n;
          recipient_count = length bs;
          recipient_ids = recipients;
          recipient_keys = keys;
          header_size = offset + length bs * c.recipient_id_size + length bs * c.encrypted_key_size;
          ephemeral_public_key = some ephemeral;
        })
  unfolding parse_recipients
  parse_recipients-At data_ ephemeral rest n offset bs keys recipients kp sized ksized same some_
        known at =
      let ids_end = length bs * c.recipient_id_size in
      let keys_at =
        At-next (concat bs) (concat keys ++ rest) ids_end at
          (length-concat c.recipient_id_size bs sized) in
      let keys_length = length-concat c.encrypted_key_size keys ksized in
      let total : length keys * c.encrypted_key_size ≡ length bs * c.encrypted_key_size =
        ap (λ (k : ℕ). k * c.encrypted_key_size) (sym same) in
      let nonempty : 0 < length (concat keys) =
        omega (arith, product_pos (length bs) c.encrypted_key_size some_ kp) in
      let room = At-le (concat keys) rest keys_at nonempty in
      let keys_read : read_keys c.encrypted_key_size data_ (length bs) (offset + ids_end)
          ≡ ok keys =
        ap (λ (k : ℕ). read_keys c.encrypted_key_size data_ k (offset + ids_end)) same
        ∙ read_keys-At c.encrypted_key_size keys data_ rest (offset + ids_end) kp ksized keys_at in
      rw
        (
          le→ltb (length data_)
              (offset + (length bs * c.recipient_id_size + length bs * c.encrypted_key_size))
              (omega arith),
          keys_read,
          read_ids-At c.recipient_id_size bs data_ (concat keys ++ rest) offset sized at,
          known,
        )
        refl

  -- The fixed fields in front of the recipients.
  module _ (data_ ephemeral tail : Bytes) (n count : ℕ) (doc : IsDocumented c) where
    parse_lengths-At :
        (offset : ℕ)
        → c.recipient_id_size < 256
        → 0 < n
        → n ≤ c.max_raw_data_size
        → 0 < count
        → count ≤ c.max_recipients
        → At data_ offset
            (be_bytes 8 (c.recipient_id_size * 2 ^ 56 + n) ++ (be_bytes 2 count ++ tail))
        → parse_lengths c ids data_ ephemeral offset
          ≡ parse_recipients c ids data_ ephemeral n count c.recipient_id_size (offset + 8 + 2)
    unfolding parse_lengths
    parse_lengths-At offset id_fits n_pos n_fits count_pos count_fits at =
        let combined = c.recipient_id_size * 2 ^ 56 + n in
        let count_at =
          At-next (be_bytes 8 combined) (be_bytes 2 count ++ tail) 8 at
            (length-be_bytes 8 combined) in
        let count_read : read_uint_be 2 data_ (offset + c.multiple_data_length_size) ≡ ok count =
          rw doc.data_length_eight (At-read 2 count tail (omega arith) (omega arith) count_at) in
        rw
          (
            At-read 8 combined (be_bytes 2 count ++ tail) (omega arith) (omega arith) at,
            bit_and_ones 56 combined,
            low,
            high,
            pos→==0 n n_pos,
            le→ltb c.max_raw_data_size n n_fits,
            lt→ltb 0 c.recipient_id_size doc.id_nonempty,
            count_read,
            pos→==0 count count_pos,
            le→ltb c.max_recipients count count_fits,
          )
          sizes
      where
        low : (c.recipient_id_size * 2 ^ 56 + n) % 2 ^ 56 ≡ n
        low = omega arith

        high : (c.recipient_id_size * 2 ^ 56 + n) / 2 ^ 56 ≡ c.recipient_id_size
        high = omega arith

        sizes :
            parse_recipients c ids data_ ephemeral n count c.recipient_id_size
              (offset + c.multiple_data_length_size + c.recipient_count_size)
            ≡ parse_recipients c ids data_ ephemeral n count c.recipient_id_size (offset + 8 + 2)
        sizes =
            ap (parse_recipients c ids data_ ephemeral n count c.recipient_id_size)
              {x = offset + c.multiple_data_length_size + c.recipient_count_size}
              {y = offset + 8 + 2} (omega arith)

    pub parse_header-At :
        c.recipient_id_size < 256
        → 0 < n
        → n ≤ c.max_raw_data_size
        → 0 < count
        → count ≤ c.max_recipients
        → length ephemeral ≡ c.public_key_length
        → 46 ≤ length data_
        → At data_ 0 (
            be_bytes 1 c.version_v1
            ++ (be_bytes 1 c.suite_secp256k1_aes256gcm_sha256
                ++ (be_bytes 1 c.type_multiple
                    ++ (ephemeral
                        ++ (be_bytes 8 (c.recipient_id_size * 2 ^ 56 + n)
                            ++ (be_bytes 2 count ++ tail))))))
        → parse_header c ids data_
          ≡ parse_recipients c ids data_ ephemeral n count c.recipient_id_size 46
    unfolding parse_header
    parse_header-At id_fits n_pos n_fits count_pos count_fits eph_sized enough at =
        let lengths = be_bytes 8 (c.recipient_id_size * 2 ^ 56 + n) ++ (be_bytes 2 count ++ tail) in
        let typed = be_bytes 1 c.type_multiple ++ (ephemeral ++ lengths) in
        let suited = be_bytes 1 c.suite_secp256k1_aes256gcm_sha256 ++ typed in
        let at1 = At-next (be_bytes 1 c.version_v1) suited 1 at (length-be_bytes 1 c.version_v1) in
        let at2 =
          At-next (be_bytes 1 c.suite_secp256k1_aes256gcm_sha256) typed 1 at1
            (length-be_bytes 1 c.suite_secp256k1_aes256gcm_sha256) in
        let at3 =
          At-next (be_bytes 1 c.type_multiple) (ephemeral ++ lengths) 1 at2
            (length-be_bytes 1 c.type_multiple) in
        let at4 = At-next ephemeral lengths 33 at3 (eph_sized ∙ doc.compressed_key) in
        let o2 : c.version_size + c.cipher_suite_size ≡ 2 = omega arith in
        let o3 : c.version_size + c.cipher_suite_size + c.encryption_type_size ≡ 3 = omega arith in
        let o4 : c.version_size + c.cipher_suite_size + c.encryption_type_size + c.public_key_length
            ≡ 36 =
          omega arith in
        let suite_read : read_uint_be 1 data_ c.version_size
            ≡ ok c.suite_secp256k1_aes256gcm_sha256 =
          ap (read_uint_be 1 data_) doc.version_one
          ∙ At-read 1 c.suite_secp256k1_aes256gcm_sha256 typed (omega arith) doc.suite_byte at1 in
        rw
          (
            le→ltb (length data_) 46 enough,
            At-read 1 c.version_v1 suited (omega arith) doc.version_byte at,
            eq→== c.version_v1 c.version_v1 refl,
            suite_read,
            eq→== c.suite_secp256k1_aes256gcm_sha256 c.suite_secp256k1_aes256gcm_sha256 refl,
            o4,
            o3,
            o2,
            At-read 1 c.type_multiple (ephemeral ++ lengths) (omega arith) doc.type_byte at2,
            eq→== c.type_multiple c.type_multiple refl,
            At-subarray ephemeral lengths 33 at3 (eph_sized ∙ doc.compressed_key),
          )
          (parse_lengths-At 36 id_fits n_pos n_fits count_pos count_fits at4)
