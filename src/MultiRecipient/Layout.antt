-- ===== src/MultiRecipient/Layout.antt =====
-- What `build_header` accepts and the bytes that it returns.
use node_ecies_lib.Prelude.{
  ℕ, suc, ◌+◌, ◌*◌, ◌^◌, ◌<◌, ◌≤◌, ◌≡◌, refl, sym, ap, ◌∙◌, some, List, [], ◌∷◌, ◌++◌, map,
  append_assoc, append-nil, length, length-append, take-append, length-replicate, All, le→ltb,
  eq→==, arith,
}
use node_ecies_lib.Prelude.Bits.{bit_or_shifted}
use node_ecies_lib.Prelude.Int.{pos}
use node_ecies_lib.Errors.{ok}
use node_ecies_lib.Buffer.{concat, Bytes, alloc, be_bytes}
use node_ecies_lib.Buffer.Laws.{drop-zeros, write-alloc}
use node_ecies_lib.Ecies.{Consts, IsDocumented, IdProvider, PlatformId, id_bytes}
use node_ecies_lib.MultiRecipient.Header.{
  ParsedHeader, set_bytes, write_ids, combined_length, check_keys, build_header,
}

-- The wire format of a header.
unfoldable pub layout :
    {T : Type 0} → Consts → IdProvider T → Bytes → ℕ → List (PlatformId T) → List Bytes → Bytes
layout c ids ephemeral data_length recipients keys =
    be_bytes 1 c.version_v1
    ++ (be_bytes 1 c.suite_secp256k1_aes256gcm_sha256
        ++ (be_bytes 1 c.type_multiple
            ++ (ephemeral
                ++ (be_bytes 8 (c.recipient_id_size * 2 ^ 56 + data_length)
                    ++ (be_bytes 2 (length recipients)
                        ++ (concat (map (id_bytes ids) recipients) ++ concat keys))))))

abbrev pub HaveLength : ℕ → List Bytes → Type 0
HaveLength n = All (λ b. length b ≡ n)

-- The headers that `build_header` accepts.
pub record IsValidHeader {T : Type 0} (c : Consts) (ids : IdProvider T) (d : ParsedHeader T) (n : ℕ)
    (ephemeral : Bytes) : Type 0 where
  pub recipients_fit : length d.recipient_ids ≤ c.max_recipients
  pub keys_match : length d.recipient_ids ≡ length d.recipient_keys
  pub length_known : d.data_length ≡ pos n
  pub length_fits : n ≤ c.max_raw_data_size
  pub ephemeral_known : d.ephemeral_public_key ≡ some ephemeral
  pub id_size_fits : c.recipient_id_size < 256
  pub ids_sized : HaveLength c.recipient_id_size (map (id_bytes ids) d.recipient_ids)
  pub keys_sized : HaveLength c.encrypted_key_size d.recipient_keys

pub length-concat : (n : ℕ) (bs : List Bytes) → HaveLength n bs → length (concat bs) ≡ length bs * n
length-concat n [] h = omega arith
length-concat n (b ∷ bs) (hb, hbs) =
    length-append b (concat bs) ∙ grind (arith, length-concat n bs hbs)

check_keys_passes :
    (c : Consts) (keys : List Bytes)
    → 0 < c.encrypted_key_size
    → HaveLength c.encrypted_key_size keys
    → check_keys c keys ≡ ok tt
unfolding check_keys
check_keys_passes c [] nonzero h = refl
check_keys_passes c (k ∷ ks) nonzero (hk, hks) = ground (arith, check_keys_passes c ks nonzero hks)

-- One ID written at the front of what is still zero.
set_bytes-zeros :
    (pre source : Bytes) (at left : ℕ)
    → length pre ≡ at
    → set_bytes (pre ++ alloc (length source + left)) at source ≡ ok ((pre ++ source) ++ alloc left)
unfolding set_bytes
set_bytes-zeros pre source at left h =
    let whole = pre ++ alloc (length source + left) in
    rw
      (
        le→ltb (length whole) (at + length source) (
            omega (
              arith,
              length-append pre (alloc (length source + left)),
              length-replicate {A = ℕ} (length source + left) 0,
            )),
        take-append pre (alloc (length source + left)) at h,
        drop-zeros pre at (length source) left h,
      )
      (ap ok (sym (append_assoc pre source (alloc left))))

combined_length-add :
    (c : Consts) (n : ℕ) → n < 2 ^ 53 → combined_length c n ≡ c.recipient_id_size * 2 ^ 56 + n
unfolding combined_length
combined_length-add c n h = bit_or_shifted 56 c.recipient_id_size n (omega arith)

module _ (c : Consts) {T : Type 0} (ids : IdProvider T) where
  write_ids_lem :
      (rs : List (PlatformId T)) (index zeros : ℕ) (pre : Bytes)
      → length pre ≡ index * c.recipient_id_size
      → zeros ≡ length rs * c.recipient_id_size
      → HaveLength c.recipient_id_size (map (id_bytes ids) rs)
      → write_ids c ids rs index (pre ++ alloc zeros) ≡ ok (pre ++ concat (map (id_bytes ids) rs))
  unfolding write_ids
  write_ids_lem [] index zeros pre h z sized =
      let none_left : zeros ≡ 0 = omega arith in ap (λ (k : ℕ). ok (pre ++ alloc k)) none_left
  write_ids_lem (r ∷ rs) index zeros pre h z (hr, sized) =
      let b = id_bytes ids r in
      let left = length rs * c.recipient_id_size in
      let split : zeros ≡ length b + left = omega arith in
      rw
        (
          eq→== (length b) c.recipient_id_size hr,
          split,
          set_bytes-zeros pre b (index * c.recipient_id_size) left h,
        )
        (write_ids_lem rs (suc index) left (pre ++ b) (omega (arith, length-append pre b)) refl
            sized
          ∙ ap ok (append_assoc pre b (concat (map (id_bytes ids) rs))))

  -- A valid header is built, and its bytes are those of the wire format.
  pub build_header-layout :
      (d : ParsedHeader T) (n : ℕ) (ephemeral : Bytes)
      → IsDocumented c
      → IsValidHeader c ids d n ephemeral
      → build_header c ids d ≡ ok (layout c ids ephemeral n d.recipient_ids d.recipient_keys)
  unfolding build_header layout
  build_header-layout d n ephemeral doc v =
      rw
        (
          le→ltb c.max_recipients (length d.recipient_ids) v.recipients_fit,
          eq→== (length d.recipient_ids) (length d.recipient_keys) v.keys_match,
          v.length_known,
          le→ltb c.max_raw_data_size n v.length_fits,
          v.ephemeral_known,
          write-alloc 1 c.version_v1 c.version_size doc.version_one doc.version_byte,
          write-alloc 1 c.suite_secp256k1_aes256gcm_sha256 c.cipher_suite_size doc.suite_one
              doc.suite_byte,
          write-alloc 1 c.type_multiple c.encryption_type_size doc.type_one doc.type_byte,
          le→ltb 255 c.recipient_id_size (omega arith),
          combined_length-add c n (omega arith),
          write-alloc 8 (c.recipient_id_size * 2 ^ 56 + n) c.multiple_data_length_size
              doc.data_length_eight (omega arith),
          write-alloc 2 (length d.recipient_ids) c.recipient_count_size doc.count_two (omega arith),
          write_ids_lem d.recipient_ids 0 (length d.recipient_ids * c.recipient_id_size) []
              (omega arith) refl v.ids_sized,
          check_keys_passes c d.recipient_keys doc.key_nonempty v.keys_sized,
        )
        (simp append-nil)
