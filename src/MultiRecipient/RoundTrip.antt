-- ===== src/MultiRecipient/RoundTrip.antt =====
-- `parse_header` reads back what `build_header` wrote.
use node_ecies_lib.Prelude.{
  ℕ, ◌+◌, ◌*◌, ◌^◌, ◌<◌, ◌≤◌, ◌≡◌, sym, ap, subst, ◌∙◌, Option, some, List, ◌++◌, map, append_assoc,
  length, length-append, length-map, arith,
}
use node_ecies_lib.Prelude.Int.{ℤ, pos}
use node_ecies_lib.Errors.{ok}
use node_ecies_lib.Buffer.{concat, Bytes, be_bytes}
use node_ecies_lib.Buffer.Laws.{length-be_bytes}
use node_ecies_lib.Buffer.Fields.{At, At-next}
use node_ecies_lib.Ecies.{Consts, IsDocumented, IdProvider, PlatformId, id_bytes}
use node_ecies_lib.MultiRecipient.Header.{ParsedHeader, build_header, get_header_size}
use node_ecies_lib.MultiRecipient.Layout.{layout, IsValidHeader, length-concat, build_header-layout}
use node_ecies_lib.MultiRecipient.Parse.{from_bytes_all, parse_recipients, parse_header}
use node_ecies_lib.MultiRecipient.Reading.{parse_recipients-At, parse_header-At}

module _ (c : Consts) {T : Type 0} (ids : IdProvider T) (d : ParsedHeader T) (n : ℕ)
    (ephemeral : Bytes) where
  abbrev recipients_layout : Bytes → Bytes
  recipients_layout rest =
      concat (map (id_bytes ids) d.recipient_ids) ++ (concat d.recipient_keys ++ rest)

  -- The layout with what follows it, bracketed to the right.
  layout-At :
      (rest : Bytes)
      → At (layout c ids ephemeral n d.recipient_ids d.recipient_keys ++ rest) 0 (
          be_bytes 1 c.version_v1
          ++ (be_bytes 1 c.suite_secp256k1_aes256gcm_sha256
              ++ (be_bytes 1 c.type_multiple
                  ++ (ephemeral
                      ++ (be_bytes 8 (c.recipient_id_size * 2 ^ 56 + n)
                          ++ (be_bytes 2 (length d.recipient_ids) ++ recipients_layout rest))))))
  unfolding layout
  layout-At rest = record { at = simp append_assoc }

  pub length-layout :
      IsDocumented c
      → IsValidHeader c ids d n ephemeral
      → length ephemeral ≡ c.public_key_length
      → length (layout c ids ephemeral n d.recipient_ids d.recipient_keys)
        ≡ get_header_size c (length d.recipient_ids)
  unfolding layout get_header_size
  length-layout doc v sized =
      let id_bufs = map (id_bytes ids) d.recipient_ids in
      let same : length d.recipient_keys * c.encrypted_key_size
          ≡ length d.recipient_ids * c.encrypted_key_size =
        ap (λ (k : ℕ). k * c.encrypted_key_size) (sym v.keys_match) in
      let ids_length : length id_bufs * c.recipient_id_size
          ≡ length d.recipient_ids * c.recipient_id_size =
        ap (λ (k : ℕ). k * c.recipient_id_size) (length-map d.recipient_ids (id_bytes ids)) in
      simp length-append (
        omega (
          arith,
          length-be_bytes,
          length-concat c.recipient_id_size id_bufs v.ids_sized,
          length-concat c.encrypted_key_size d.recipient_keys v.keys_sized,
        ))

  header_sum :
      IsDocumented c
      → (count : ℕ)
      → get_header_size c count ≡ 46 + count * c.recipient_id_size + count * c.encrypted_key_size
  unfolding get_header_size
  header_sum doc count = omega arith

  header_min : IsDocumented c → (count : ℕ) → 46 ≤ get_header_size c count
  unfolding get_header_size
  header_min doc count = omega arith

  -- The header that is read back, as a function of what the proof rewrites.
  abbrev answer : List (PlatformId T) → ℕ → ℕ → ℤ → Option Bytes → ParsedHeader T
  answer decoded count size data_length key = record {
    data_length = data_length;
    recipient_count = count;
    recipient_ids = decoded;
    recipient_keys = d.recipient_keys;
    header_size = size;
    ephemeral_public_key = key;
  }

  At-recipients :
      IsDocumented c
      → length ephemeral ≡ c.public_key_length
      → (rest : Bytes) → {data_ : Bytes}
      → At data_ 0 (
          be_bytes 1 c.version_v1
          ++ (be_bytes 1 c.suite_secp256k1_aes256gcm_sha256
              ++ (be_bytes 1 c.type_multiple
                  ++ (ephemeral
                      ++ (be_bytes 8 (c.recipient_id_size * 2 ^ 56 + n)
                          ++ (be_bytes 2 (length d.recipient_ids) ++ recipients_layout rest))))))
      → At data_ 46 (recipients_layout rest)
  At-recipients doc sized rest at =
      At-next _ _ 2
        (At-next _ _ 8
          (At-next _ _ 33
            (At-next _ _ 1
              (At-next _ _ 1 (At-next _ _ 1 at (length-be_bytes 1 _)) (length-be_bytes 1 _))
              (length-be_bytes 1 _))
            (sized ∙ doc.compressed_key))
          (length-be_bytes 8 _))
        (length-be_bytes 2 _)

  parse_recipients-layout :
      (data_ rest : Bytes) (decoded : List (PlatformId T))
      → IsDocumented c
      → IsValidHeader c ids d n ephemeral
      → 0 < length d.recipient_ids
      → length ephemeral ≡ c.public_key_length
      → from_bytes_all ids (map (id_bytes ids) d.recipient_ids) ≡ ok decoded
      → At data_ 46 (recipients_layout rest)
      → parse_recipients c ids data_ ephemeral n (length d.recipient_ids) c.recipient_id_size 46
        ≡ ok (
            answer decoded
              (length d.recipient_ids)
              (length (layout c ids ephemeral n d.recipient_ids d.recipient_keys))
              d.data_length
              d.ephemeral_public_key)
  parse_recipients-layout data_ rest decoded doc v some_ sized known at =
      let id_bufs = map (id_bytes ids) d.recipient_ids in
      let count = length-map d.recipient_ids (id_bytes ids) in
      let size = length (layout c ids ephemeral n d.recipient_ids d.recipient_keys) in
      subst
        (λ k.
          parse_recipients c ids data_ ephemeral n k c.recipient_id_size 46
          ≡ ok (
              answer decoded k (46 + k * c.recipient_id_size + k * c.encrypted_key_size) (pos n)
                (some ephemeral)))
        count
        (parse_recipients-At c ids data_ ephemeral rest n 46 id_bufs d.recipient_keys decoded
          doc.key_nonempty v.ids_sized v.keys_sized (count ∙ v.keys_match) (omega arith) known at)
      ∙ ap (λ (s : ℕ). ok (answer decoded (length d.recipient_ids) s (pos n) (some ephemeral)))
          (sym (length-layout doc v sized ∙ header_sum doc (length d.recipient_ids)))
      ∙ ap (λ (z : ℤ). ok (answer decoded (length d.recipient_ids) size z (some ephemeral)))
          (sym v.length_known)
      ∙ ap (λ (k : Option Bytes). ok (answer decoded (length d.recipient_ids) size d.data_length k))
          (sym v.ephemeral_known)

  -- Of a header with data and recipients, `parse_header` reads back, from what `build_header`
  -- returned and whatever follows it, the data length, the IDs as the provider decodes their bytes,
  -- the keys, the ephemeral public key, and the length of the header's bytes as its size.
  pub parse_header-build_header :
      (rest : Bytes) (decoded : List (PlatformId T))
      → IsDocumented c
      → IsValidHeader c ids d n ephemeral
      → 0 < n
      → 0 < length d.recipient_ids
      → length ephemeral ≡ c.public_key_length
      → from_bytes_all ids (map (id_bytes ids) d.recipient_ids) ≡ ok decoded
      → (h : Bytes) × (build_header c ids d ≡ ok h)
        × (parse_header c ids (h ++ rest)
            ≡ ok (record {
              data_length = d.data_length;
              recipient_count = length d.recipient_ids;
              recipient_ids = decoded;
              recipient_keys = d.recipient_keys;
              header_size = length h;
              ephemeral_public_key = d.ephemeral_public_key;
            }))
  parse_header-build_header rest decoded doc v n_pos some_ sized known =
      let bytes = layout c ids ephemeral n d.recipient_ids d.recipient_keys in
      let at = layout-At rest in
      (
        bytes,
        build_header-layout c ids d n ephemeral doc v,
        parse_header-At c ids (bytes ++ rest) ephemeral (recipients_layout rest) n
              (length d.recipient_ids) doc v.id_size_fits n_pos v.length_fits some_ v.recipients_fit
              sized
              (omega (
                arith,
                length-append bytes rest,
                length-layout doc v sized,
                header_min doc (length d.recipient_ids),
              ))
              at
            ∙ parse_recipients-layout (bytes ++ rest) rest decoded doc v some_ sized known
                (At-recipients doc sized rest at),
      )
