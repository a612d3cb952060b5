-- ===== src/MultiRecipient/Messages.antt =====
-- `parse_buffer` of a message that follows its header.
use node_ecies_lib.Prelude.{ℕ, ◌<◌, ◌≡◌, refl, List, ◌++◌, map, length, drop-append}
use node_ecies_lib.Errors.{ok}
use node_ecies_lib.Buffer.{Bytes, subarray_from}
use node_ecies_lib.Ecies.{Consts, IsDocumented, IdProvider, PlatformId, id_bytes}
use node_ecies_lib.MultiRecipient.Header.{ParsedHeader, Message, build_header}
use node_ecies_lib.MultiRecipient.Layout.{IsValidHeader}
use node_ecies_lib.MultiRecipient.Parse.{from_bytes_all, parse_buffer}
use node_ecies_lib.MultiRecipient.RoundTrip.{parse_header-build_header}

cut_header : (h rest : Bytes) → subarray_from (h ++ rest) (length h) ≡ rest
unfolding subarray_from
cut_header h rest = drop-append h rest (length h) refl

module _ (c : Consts) {T : Type 0} (ids : IdProvider T) (d : ParsedHeader T) (n : ℕ)
    (ephemeral : Bytes) where
  -- A valid header with data and recipients is built, and a buffer that starts with it is parsed to
  -- a message that consists of what follows the header, under a header with the same data length.
  pub parse_buffer-build_header :
      (body : Bytes) (decoded : List (PlatformId T))
      → IsDocumented c
      → IsValidHeader c ids d n ephemeral
      → 0 < n
      → 0 < length d.recipient_ids
      → length ephemeral ≡ c.public_key_length
      → from_bytes_all ids (map (id_bytes ids) d.recipient_ids) ≡ ok decoded
      → (h : Bytes) × ((m : Message T) × ((build_header c ids d ≡ ok h)
            × ((parse_buffer c ids (h ++ body) ≡ ok m)
                × ((m.encrypted_message ≡ body) × (m.header.data_length ≡ d.data_length)))))
  unfolding parse_buffer
  parse_buffer-build_header body decoded doc v n_pos some_ sized known =
      let (h, built, read) =
        parse_header-build_header c ids d n ephemeral body decoded doc v n_pos some_ sized known in
      let header : ParsedHeader T = record {
        data_length = d.data_length;
        recipient_count = length d.recipient_ids;
        recipient_ids = decoded;
        recipient_keys = d.recipient_keys;
        header_size = length h;
        ephemeral_public_key = d.ephemeral_public_key;
      } in
      (
        h,
        (
          record { header = header; encrypted_message = subarray_from (h ++ body) (length h) },
          (built, (rw read refl, (cut_header h body, refl))),
        ),
      )
