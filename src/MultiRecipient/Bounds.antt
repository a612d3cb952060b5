-- ===== src/MultiRecipient/Bounds.antt =====
-- What `parse_header` guarantees of any header that it returns, whatever the bytes.
use node_ecies_lib.Prelude.{
  ℕ, zero, suc, ◌+◌, ◌-◌, ◌*◌, ◌/◌, ◌^◌, ◌<◌, ◌≤◌, ◌≡◌, refl, ap, List, [], ◌∷◌, length,
  length-take, length-drop, drop, ltb, arith, if◌then◌else◌,
}
use Prim.Native.Nat.{bit_and}
use node_ecies_lib.Errors.{ok, value_or}
use node_ecies_lib.Buffer.{Bytes, read_uint_be, subarray}
use node_ecies_lib.Ecies.{Consts, IdProvider, PlatformId}
use node_ecies_lib.MultiRecipient.Header.{ParsedHeader}
use node_ecies_lib.MultiRecipient.Layout.{HaveLength}
use node_ecies_lib.MultiRecipient.Parse.{
  read_ids, read_keys, from_bytes_all, parse_recipients, parse_lengths, parse_header,
}

-- A header that describes bytes which are there.
pub record IsSound {T : Type 0} (c : Consts) (data_ : Bytes) (p : ParsedHeader T) : Type 0 where
  pub some_recipients : 0 < p.recipient_count
  pub recipients_bounded : p.recipient_count ≤ c.max_recipients
  pub as_many_ids : length p.recipient_ids ≡ p.recipient_count
  pub as_many_keys : length p.recipient_keys ≡ p.recipient_count
  pub keys_sized : HaveLength c.encrypted_key_size p.recipient_keys
  pub inside : p.header_size ≤ length data_

length-subarray :
    (data_ : Bytes) (offset n : ℕ)
    → offset + n ≤ length data_
    → length (subarray data_ offset (offset + n)) ≡ n
unfolding subarray
length-subarray data_ offset n h =
    omega (arith, length-take (offset + n - offset) (drop offset data_), length-drop offset data_)

length-read_ids :
    (size : ℕ) (data_ : Bytes) (count offset : ℕ)
    → length (read_ids size data_ count offset) ≡ count
unfolding read_ids
length-read_ids size data_ zero offset = refl
length-read_ids size data_ (suc count) offset =
    ap suc (length-read_ids size data_ count (offset + size))

read_keys-sized :
    (size : ℕ) (data_ : Bytes) (count offset : ℕ) (keys : List Bytes)
    → read_keys size data_ count offset ≡ ok keys
    → (length keys ≡ count) × HaveLength size keys
unfolding read_keys
read_keys-sized size data_ zero offset keys e = ground arith
read_keys-sized size data_ (suc count) offset keys e =
    let rest = read_keys size data_ count (offset + size) in
    ground (
      arith,
      read_keys-sized size data_ count (offset + size) (value_or rest []),
      length-subarray data_ offset size,
    )

length-from_bytes_all :
    {T : Type 0} (ids : IdProvider T) (bs : List Bytes) (is : List (PlatformId T))
    → from_bytes_all ids bs ≡ ok is
    → length is ≡ length bs
unfolding from_bytes_all
length-from_bytes_all ids [] is e = ground arith
length-from_bytes_all ids (b ∷ bs) is e =
    ground (arith, length-from_bytes_all ids bs (value_or (from_bytes_all ids bs) []))

module _ (c : Consts) {T : Type 0} (ids : IdProvider T) (data_ : Bytes) where
  parse_recipients-IsSound :
      (ephemeral : Bytes) (n count id_size offset : ℕ) (p : ParsedHeader T)
      → 0 < count
      → count ≤ c.max_recipients
      → parse_recipients c ids data_ ephemeral n count id_size offset ≡ ok p
      → IsSound c data_ p
  unfolding parse_recipients
  parse_recipients-IsSound ephemeral n count id_size offset p some_ few e =
      let bufs = read_ids id_size data_ count offset in
      let keys = read_keys c.encrypted_key_size data_ count (offset + count * id_size) in
      ground (
        arith,
        read_keys-sized c.encrypted_key_size data_ count (offset + count * id_size)
            (value_or keys []),
        length-from_bytes_all ids bufs (value_or (from_bytes_all ids bufs) []),
        length-read_ids id_size data_ count offset,
      )

  parse_lengths-IsSound :
      (ephemeral : Bytes) (offset : ℕ) (p : ParsedHeader T)
      → parse_lengths c ids data_ ephemeral offset ≡ ok p
      → IsSound c data_ p
  unfolding parse_lengths
  parse_lengths-IsSound ephemeral offset p e =
      let combined = value_or (read_uint_be 8 data_ offset) 0 in
      let stored = combined / 2 ^ 56 in
      let at = offset + c.multiple_data_length_size in
      let count = value_or (read_uint_be 2 data_ at) 0 in
      ground (
        arith,
        parse_recipients-IsSound ephemeral (bit_and combined 0x00ffffffffffffff) count
            (if ltb 0 stored then stored else c.recipient_id_size) (at + c.recipient_count_size) p,
      )

  -- Every header that is returned has between 1 and MAX_RECIPIENTS recipients, as many IDs and keys
  -- as it counts, keys of ENCRYPTED_KEY_SIZE bytes, and a size within the data.
  pub parse_header-IsSound :
      (p : ParsedHeader T) → parse_header c ids data_ ≡ ok p → IsSound c data_ p
  unfolding parse_header
  parse_header-IsSound p e =
      let key_at = c.version_size + c.cipher_suite_size + c.encryption_type_size in
      let lengths_at = key_at + c.public_key_length in
      ground (arith, parse_lengths-IsSound (subarray data_ key_at lengths_at) lengths_at p)
