-- ===== src/MultiRecipient/Accepts.antt =====
-- `build_header` refuses every header that is not valid.
use node_ecies_lib.Prelude.{ℕ, suc, ◌*◌, ◌≡◌, Option, none, some, List, [], ◌∷◌, map, length, arith}
use node_ecies_lib.Prelude.Int.{pos_part}
use node_ecies_lib.Errors.{ok, value_or}
use node_ecies_lib.Buffer.{Bytes, alloc}
use node_ecies_lib.Ecies.{Consts, IdProvider, PlatformId, id_bytes}
use node_ecies_lib.MultiRecipient.Header.{
  ParsedHeader, set_bytes, write_ids, check_keys, build_header,
}
use node_ecies_lib.MultiRecipient.Layout.{HaveLength, IsValidHeader}

abbrev pub bytes_or_empty : Option Bytes → Bytes
bytes_or_empty none = []
bytes_or_empty (some b) = b

check_keys-HaveLength :
    (c : Consts) (keys : List Bytes)
    → check_keys c keys ≡ ok tt
    → HaveLength c.encrypted_key_size keys
unfolding check_keys
check_keys-HaveLength c [] e = tt
check_keys-HaveLength c (k ∷ ks) e = ground (arith, check_keys-HaveLength c ks)

module _ (c : Consts) {T : Type 0} (ids : IdProvider T) where
  write_ids-HaveLength :
      (rs : List (PlatformId T)) (index : ℕ) (buf out : Bytes)
      → write_ids c ids rs index buf ≡ ok out
      → HaveLength c.recipient_id_size (map (id_bytes ids) rs)
  unfolding write_ids
  write_ids-HaveLength [] index buf out e = tt
  write_ids-HaveLength (r ∷ rs) index buf out e =
      let next = set_bytes buf (index * c.recipient_id_size) (id_bytes ids r) in
      ground (arith, write_ids-HaveLength rs (suc index) (value_or next []) out)

  -- Whatever `build_header` returns bytes for is a valid header.
  pub build_header-IsValidHeader :
      (d : ParsedHeader T) (h : Bytes)
      → build_header c ids d ≡ ok h
      → IsValidHeader c ids d (pos_part d.data_length) (bytes_or_empty d.ephemeral_public_key)
  unfolding build_header
  build_header-IsValidHeader d h e =
      let zeros = alloc (length d.recipient_ids * c.recipient_id_size) in
      ground (
        arith,
        write_ids-HaveLength d.recipient_ids 0 zeros
            (value_or (write_ids c ids d.recipient_ids 0 zeros) []),
        check_keys-HaveLength c d.recipient_keys,
      )
