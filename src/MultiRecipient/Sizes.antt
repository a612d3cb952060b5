-- ===== src/MultiRecipient/Sizes.antt =====
-- The two size computations of the class against the header that is built.
use node_ecies_lib.Prelude.{
  ℕ, ◌+◌, ◌*◌, ◌<◌, ◌≡◌, refl, sym, ap, ◌∙◌, false, some, List, [], ◌∷◌, length, arith, le→ltb,
}
use node_ecies_lib.Errors.{ok}
use node_ecies_lib.Buffer.{Bytes}
use node_ecies_lib.Ecies.{Consts, IsDocumented, IdProvider}
use node_ecies_lib.MultiRecipient.Header.{
  ParsedHeader, total_length, overhead, get_header_size, build_header,
}
use node_ecies_lib.MultiRecipient.Layout.{layout, HaveLength, IsValidHeader, build_header-layout}
use node_ecies_lib.MultiRecipient.RoundTrip.{length-layout}

total_length-HaveLength :
    (c : Consts) (n : ℕ) (keys : List Bytes)
    → HaveLength n keys
    → total_length c keys ≡ length keys * n
unfolding total_length
total_length-HaveLength c n [] h = omega arith
total_length-HaveLength c n (k ∷ ks) (hk, hks) = grind (arith, total_length-HaveLength c n ks hks)

module _ (c : Consts) {T : Type 0} (ids : IdProvider T) (d : ParsedHeader T) (n : ℕ)
    (ephemeral : Bytes) where
  -- A valid header is built, and its length is what `getHeaderSize` says of its number of recipients.
  pub length-build_header :
      IsDocumented c
      → IsValidHeader c ids d n ephemeral
      → length ephemeral ≡ c.public_key_length
      → (h : Bytes) × (build_header c ids d ≡ ok h)
        × (length h ≡ get_header_size c (length d.recipient_ids))
  length-build_header doc v sized = (
    layout c ids ephemeral n d.recipient_ids d.recipient_keys,
    build_header-layout c ids d n ephemeral doc v,
    length-layout c ids d n ephemeral doc v sized,
  )

  -- `calculateECIESMultipleRecipientOverhead` without the message overhead, which `encryptMultiple`
  -- returns as the header's size, falls short of the header that is built of the same recipients
  -- by the length of the ephemeral public key.
  pub length-build_header-overhead :
      IsDocumented c
      → IsValidHeader c ids d n ephemeral
      → 0 < length d.recipient_ids
      → length ephemeral ≡ c.public_key_length
      → (h : Bytes) × (s : ℕ) × (build_header c ids d ≡ ok h)
        × (overhead c (length d.recipient_ids) false (some d.recipient_keys) ≡ ok s)
        × (length h ≡ s + c.public_key_length)
  unfolding overhead get_header_size
  length-build_header-overhead doc v some_ sized =
      let count = length d.recipient_ids in
      let (h, built, size) = length-build_header doc v sized in
      let keys : total_length c d.recipient_keys ≡ count * c.encrypted_key_size =
        total_length-HaveLength c c.encrypted_key_size d.recipient_keys v.keys_sized
        ∙ ap (λ (k : ℕ). k * c.encrypted_key_size) (sym v.keys_match) in
      (
        h,
        c.version_size
            + c.cipher_suite_size
            + c.encryption_type_size
            + c.multiple_data_length_size
            + c.recipient_count_size
            + count * c.recipient_id_size
            + total_length c d.recipient_keys,
        built,
        rw (le→ltb count 1 some_) refl,
        omega arith,
      )

-- For at least one recipient the computation of the overhead does not fail.
pub overhead-ok :
    (c : Consts) (count : ℕ) (keys : List Bytes)
    → 0 < count
    → (size : ℕ) × (overhead c count false (some keys) ≡ ok size)
unfolding overhead
overhead-ok c count keys some_recipient = (
  c.version_size
      + c.cipher_suite_size
      + c.encryption_type_size
      + c.multiple_data_length_size
      + c.recipient_count_size
      + count * c.recipient_id_size
      + total_length c keys,
  rw (le→ltb count 1 some_recipient) refl,
)
