-- ===== src/MultiRecipient/Tests.antt =====
-- The theorems on headers at a header for two recipients.
use node_ecies_lib.Prelude.{
  ℕ, ◌+◌, ◌≡◌, refl, false, some, List, [], ◌∷◌, ◌++◌, length, map, replicate, arith,
}
use node_ecies_lib.Prelude.Int.{pos}
use node_ecies_lib.Errors.{ok}
use node_ecies_lib.Buffer.{Bytes, read_uint_be, write_uint_be}
use node_ecies_lib.Ecies.{
  IsDocumented, IdProvider, PlatformId, buffer, uint8_array, other, id_bytes,
}
use node_ecies_lib.Ecies.Sample.{consts}
use node_ecies_lib.MultiRecipient.Header.{
  ParsedHeader, combined_length, write_ids, check_keys, build_header, overhead,
}
use node_ecies_lib.MultiRecipient.Parse.{
  from_bytes_all, read_ids, read_keys, parse_recipients, parse_lengths, parse_header,
}
use node_ecies_lib.MultiRecipient.Layout.{IsValidHeader}
use node_ecies_lib.MultiRecipient.RoundTrip.{parse_header-build_header}
use node_ecies_lib.MultiRecipient.Bounds.{IsSound, parse_header-IsSound}
use node_ecies_lib.MultiRecipient.Accepts.{build_header-IsValidHeader}
use node_ecies_lib.MultiRecipient.Sizes.{length-build_header-overhead}

consts-IsDocumented : IsDocumented consts
consts-IsDocumented = record {
  version_one = refl;
  suite_one = refl;
  type_one = refl;
  compressed_key = refl;
  data_length_eight = refl;
  count_two = refl;
  count_fits = omega arith;
  length_fits = omega arith;
  id_nonempty = omega arith;
  key_nonempty = omega arith;
  version_byte = omega arith;
  suite_byte = omega arith;
  type_byte = omega arith;
}

-- IDs that are their bytes.
abbrev raw_bytes : PlatformId Bytes → Bytes
raw_bytes (buffer b) = b
raw_bytes (uint8_array b) = b
raw_bytes (other b) = b

abbrev provider : IdProvider Bytes
provider = record { to_bytes = raw_bytes; from_bytes = λ b. ok (buffer b) }

abbrev ephemeral_key : Bytes
ephemeral_key = replicate 33 2

abbrev recipient_ids : List (PlatformId Bytes)
recipient_ids = buffer (replicate 12 7) ∷ buffer (replicate 12 8) ∷ []

abbrev header : ParsedHeader Bytes
header = record {
  data_length = pos 5;
  recipient_count = 2;
  recipient_ids = recipient_ids;
  recipient_keys = replicate 60 1 ∷ replicate 60 3 ∷ [];
  header_size = 0;
  ephemeral_public_key = some ephemeral_key;
}

header-IsValidHeader : IsValidHeader consts provider header 5 ephemeral_key
unfolding id_bytes
header-IsValidHeader = record {
  recipients_fit = omega arith;
  keys_match = refl;
  length_known = refl;
  length_fits = omega arith;
  ephemeral_known = refl;
  id_size_fits = omega arith;
  ids_sized = (refl, (refl, tt));
  keys_sized = (refl, (refl, tt));
}

ids_decoded : from_bytes_all provider (map (id_bytes provider) recipient_ids) ≡ ok recipient_ids
unfolding from_bytes_all id_bytes
ids_decoded = refl

parse_header-build_header_example :
    (h : Bytes) × (build_header consts provider header ≡ ok h)
    × (parse_header consts provider (h ++ (9 ∷ []))
        ≡ ok (record {
          data_length = pos 5;
          recipient_count = 2;
          recipient_ids = recipient_ids;
          recipient_keys = header.recipient_keys;
          header_size = length h;
          ephemeral_public_key = some ephemeral_key;
        }))
parse_header-build_header_example =
    parse_header-build_header consts provider header 5 ephemeral_key (9 ∷ []) recipient_ids
      consts-IsDocumented header-IsValidHeader (omega arith) (omega arith) refl ids_decoded

length-build_header-overhead_example :
    (h : Bytes) × (s : ℕ) × (build_header consts provider header ≡ ok h)
    × (overhead consts 2 false (some header.recipient_keys) ≡ ok s)
    × (length h ≡ s + 33)
length-build_header-overhead_example =
    length-build_header-overhead consts provider header 5 ephemeral_key consts-IsDocumented
      header-IsValidHeader (omega arith) refl

abbrev header_bytes : Bytes
header_bytes =
    1
    ∷ 1
    ∷ 99
    ∷ (ephemeral_key
        ++ (12
            ∷ 0
            ∷ 0
            ∷ 0
            ∷ 0
            ∷ 0
            ∷ 0
            ∷ 5
            ∷ 0
            ∷ 2
            ∷ (replicate 12 7 ++ (replicate 12 8 ++ (replicate 60 1 ++ replicate 60 3)))))

header_read : parse_header consts provider header_bytes ≡ ok (record header { header_size = 190 })
unfolding parse_header read_uint_be parse_lengths parse_recipients read_keys from_bytes_all read_ids
header_read = refl

header_built : build_header consts provider header ≡ ok header_bytes
unfolding build_header write_uint_be combined_length write_ids check_keys
header_built = refl

parse_header-IsSound_example : IsSound consts header_bytes (record header { header_size = 190 })
parse_header-IsSound_example =
    parse_header-IsSound consts provider header_bytes (record header { header_size = 190 })
      header_read

build_header-IsValidHeader_example : IsValidHeader consts provider header 5 ephemeral_key
build_header-IsValidHeader_example =
    build_header-IsValidHeader consts provider header header_bytes header_built
