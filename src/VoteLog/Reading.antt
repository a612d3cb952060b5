-- ===== src/VoteLog/Reading.antt =====
-- An entry that was written is read back.
use node_ecies_lib.Prelude.{
  ℕ, ◌+◌, ◌^◌, ◌<◌, ◌≡◌, refl, sym, ap, ◌∙◌, List, [], ◌∷◌, ◌++◌, map, length, length-append,
  append_assoc, append-nil, All, arith,
}
use node_ecies_lib.Errors.{ok}
use node_ecies_lib.Buffer.{Bytes, concat, be_bytes, be_acc, read_uint_be}
use node_ecies_lib.Buffer.Laws.{length-be_bytes, be_acc-be_bytes}
use node_ecies_lib.Buffer.Fields.{At, At-next, At-subarray, At-read}
use node_ecies_lib.VoteLog.Entry.{Entry, read_value, read_values, serialize_vote, deserialize_vote}
use node_ecies_lib.VoteLog.Writing.{
  body, entry_bytes, IsLoggable, length-body, serialize_vote-entry_bytes,
}

read_value-nonempty : (b : Bytes) → 0 < length b → read_value b ≡ ok (be_acc 0 b)
unfolding read_value
read_value-nonempty [] h = absurd (omega arith)
read_value-nonempty (x ∷ b) h = refl

read_value-be_bytes : (v : ℕ) → v < 256 ^ 32 → read_value (be_bytes 32 v) ≡ ok v
read_value-be_bytes v h =
    read_value-nonempty (be_bytes 32 v) (omega (arith, length-be_bytes 32 v))
    ∙ ap ok (be_acc-be_bytes 32 v h)

read_values-At :
    (vs : List ℕ) (data_ rest : Bytes) (offset : ℕ)
    → All (λ v. v < 256 ^ 32) vs
    → At data_ offset (concat (map (be_bytes 32) vs))
    → read_values data_ (length vs) offset ≡ ok vs
unfolding read_values
read_values-At [] data_ rest offset fit at = refl
read_values-At (v ∷ vs) data_ rest offset (hv, hvs) at =
    let later = concat (map (be_bytes 32) vs) in
    rw
      (
        At-subarray (be_bytes 32 v) later 32 at (length-be_bytes 32 v),
        read_value-be_bytes v hv,
        read_values-At vs data_ rest (offset + 32) hvs
            (At-next (be_bytes 32 v) later 32 at (length-be_bytes 32 v)),
      )
      refl

-- Reading back an entry that the log can hold gives the entry.
pub deserialize_vote-entry_bytes :
    (e : Entry) → IsLoggable e → deserialize_vote (entry_bytes e) ≡ ok e
unfolding deserialize_vote entry_bytes body
deserialize_vote-entry_bytes e h =
    let data_ = entry_bytes e in
    let n = length e.voter_id in
    let values = concat (map (be_bytes 32) e.encrypted_vote) in
    let counted = be_bytes 4 (length e.encrypted_vote) ++ values in
    let identified = be_bytes 4 n ++ (e.voter_id ++ counted) in
    let at0 : At data_ 0 data_ = record { at = refl } in
    let at4 =
      At-next (be_bytes 4 (4 + length (body e))) (body e) 4 at0
        (length-be_bytes 4 (4 + length (body e))) in
    let at12 = At-next (be_bytes 8 e.timestamp) identified 8 at4 (length-be_bytes 8 e.timestamp) in
    let at16 = At-next (be_bytes 4 n) (e.voter_id ++ counted) 4 at12 (length-be_bytes 4 n) in
    let at_count = At-next e.voter_id counted n at16 refl in
    let at_values =
      At-next (be_bytes 4 (length e.encrypted_vote)) values 4 at_count
        (length-be_bytes 4 (length e.encrypted_vote)) in
    rw
      (
        At-read 8 e.timestamp identified (omega arith) (omega (arith, h.time_fits)) at4,
        At-read 4 n (e.voter_id ++ counted) (omega arith)
            (omega (arith, h.size_fits, length-body e)) at12,
        At-subarray e.voter_id counted n at16 refl,
        At-read 4 (length e.encrypted_vote) values (omega arith)
            (omega (arith, h.size_fits, length-body e)) at_count,
        read_values-At e.encrypted_vote data_ [] (16 + n + 4) h.values_fit at_values,
      )
      refl

pub length-entry_bytes : (e : Entry) → length (entry_bytes e) ≡ 4 + length (body e)
unfolding entry_bytes
length-entry_bytes e =
    length-append (be_bytes 4 (4 + length (body e))) (body e)
    ∙ omega (arith, length-be_bytes 4 (4 + length (body e)))

-- The first four bytes of an entry hold its length.
pub read-entry_bytes :
    (e : Entry) (rest : Bytes)
    → IsLoggable e
    → read_uint_be 4 (entry_bytes e ++ rest) 0 ≡ ok (length (entry_bytes e))
unfolding entry_bytes
read-entry_bytes e rest h =
    let size = 4 + length (body e) in
    At-read 4 size (body e ++ rest) (omega arith) h.size_fits
      (record { at = append_assoc (be_bytes 4 size) (body e) rest })
    ∙ ap ok (sym (length-entry_bytes e))

-- An entry that the log can hold is serialized, to bytes whose length stands in the first four, and
-- deserializing them gives the entry.
pub deserialize_vote-serialize_vote :
    (e : Entry)
    → IsLoggable e
    → (b : Bytes) × (serialize_vote e ≡ ok b)
      × (read_uint_be 4 b 0 ≡ ok (length b))
      × (deserialize_vote b ≡ ok e)
deserialize_vote-serialize_vote e h = (
  entry_bytes e,
  serialize_vote-entry_bytes e h,
  ap (λ (b : Bytes). read_uint_be 4 b 0) (sym (append-nil (entry_bytes e)))
      ∙ read-entry_bytes e [] h,
  deserialize_vote-entry_bytes e h,
)
