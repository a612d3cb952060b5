-- ===== src/VoteLog/Writing.antt =====
-- The bytes of an entry of the log.
use node_ecies_lib.Prelude.{
  ℕ, ◌+◌, ◌-◌, ◌*◌, ◌^◌, ◌<◌, ◌≤◌, ◌≡◌, refl, sym, ap, ◌∙◌, List, [], ◌∷◌, ◌++◌, map, length,
  length-append, append_assoc, All, take-append, take_all, length-replicate, arith,
}
use node_ecies_lib.Errors.{ok}
use node_ecies_lib.Buffer.{Bytes, alloc, concat, be_bytes}
use node_ecies_lib.Buffer.Laws.{length-be_bytes, drop-zeros, write-alloc, write-alloc_front}
use node_ecies_lib.VoteLog.Entry.{
  Entry, value_bytes, sum_lengths, copy_to, copy_parts, serialize_vote,
}
use node_ecies_lib.VoteLog.Hex.{value_bytes_lem}

-- The wire format of an entry, behind the length of the whole.
unfoldable pub body : Entry → Bytes
body e =
    be_bytes 8 e.timestamp
    ++ (be_bytes 4 (length e.voter_id)
        ++ (e.voter_id
            ++ (be_bytes 4 (length e.encrypted_vote)
                ++ concat (map (be_bytes 32) e.encrypted_vote))))

unfoldable pub entry_bytes : Entry → Bytes
entry_bytes e = be_bytes 4 (4 + length (body e)) ++ body e

-- The entries that the log can hold: times that `Number` gives back exactly, an entry whose size
-- fits its field, and values of at most 32 bytes.
pub record IsLoggable (e : Entry) : Type 0 where
  pub time_fits : e.timestamp < 2 ^ 53
  pub size_fits : 4 + length (body e) < 2 ^ 32
  pub values_fit : All (λ v. v < 256 ^ 32) e.encrypted_vote

length-values : (vs : List ℕ) → length (concat (map (be_bytes 32) vs)) ≡ length vs * 32
length-values [] = refl
length-values (v ∷ vs) =
    length-append (be_bytes 32 v) (concat (map (be_bytes 32) vs))
    ∙ grind (arith, length-be_bytes 32 v, length-values vs)

pub length-body :
    (e : Entry) → length (body e) ≡ 16 + length e.voter_id + length e.encrypted_vote * 32
unfolding body
length-body e = simp length-append (
    omega (
      arith,
      length-be_bytes 8 e.timestamp,
      length-be_bytes 4 (length e.voter_id),
      length-be_bytes 4 (length e.encrypted_vote),
      length-values e.encrypted_vote,
    ))

sum_lengths-concat :
    (sum : ℕ) (parts : List Bytes) → sum_lengths sum parts ≡ sum + length (concat parts)
unfolding sum_lengths
sum_lengths-concat sum [] = omega arith
sum_lengths-concat sum (p ∷ parts) =
    omega (arith, sum_lengths-concat (sum + length p) parts, length-append p (concat parts))

-- One copy fills the first part of the zeros that are left.
pub copy_to-alloc :
    (pre part : Bytes) (left : ℕ)
    → copy_to (pre ++ alloc (length part + left)) (length pre) part ≡ (pre ++ part) ++ alloc left
unfolding copy_to
copy_to-alloc pre part left =
    let whole = pre ++ alloc (length part + left) in
    let room : length part ≤ length whole - length pre = omega (
      arith,
      length-append pre (alloc (length part + left)),
      length-replicate {A = ℕ} (length part + left) 0,
    ) in
    rw
      (
        take-append pre (alloc (length part + left)) (length pre) refl,
        take_all part (length whole - length pre) room,
        drop-zeros pre (length pre) (length part) left refl,
      )
      (sym (append_assoc pre part (alloc left)))

copy_parts-alloc :
    (pre : Bytes) (parts : List Bytes) (left : ℕ)
    → left ≡ length (concat parts)
    → copy_parts (pre ++ alloc left) (length pre) parts ≡ pre ++ concat parts
unfolding copy_parts
copy_parts-alloc pre [] left h = ap (λ (n : ℕ). pre ++ alloc n) {y = 0} h
copy_parts-alloc pre (p ∷ parts) left h =
    let rest = length (concat parts) in
    ap
      (λ (n : ℕ).
        copy_parts (copy_to (pre ++ alloc n) (length pre) p) (length pre + length p) parts)
      {y = length p + rest} (omega (arith, length-append p (concat parts)))
    ∙ ap (λ (t : Bytes). copy_parts t (length pre + length p) parts) (copy_to-alloc pre p rest)
    ∙ ap (λ (n : ℕ). copy_parts ((pre ++ p) ++ alloc rest) n parts) (sym (length-append pre p))
    ∙ copy_parts-alloc (pre ++ p) parts rest refl
    ∙ append_assoc pre p (concat parts)

values-fit : (vs : List ℕ) → All (λ v. v < 256 ^ 32) vs → map value_bytes vs ≡ map (be_bytes 32) vs
values-fit [] h = refl
values-fit (v ∷ vs) (hv, hvs) = rw (value_bytes_lem v hv, values-fit vs hvs) refl

filled :
    (e : Entry) (parts : List Bytes)
    → body e ≡ concat parts
    → copy_parts (be_bytes 4 (4 + length (body e)) ++ alloc (length (body e))) 4 parts
      ≡ entry_bytes e
unfolding entry_bytes
filled e parts whole =
    let size = be_bytes 4 (4 + length (body e)) in
    ap (λ (n : ℕ). copy_parts (size ++ alloc (length (body e))) n parts)
      (sym (length-be_bytes 4 (4 + length (body e))))
    ∙ copy_parts-alloc size parts (length (body e)) (ap length whole)
    ∙ ap (λ (b : Bytes). size ++ b) (sym whole)

-- An entry that the log can hold is written as its wire format.
pub serialize_vote-entry_bytes : (e : Entry) → IsLoggable e → serialize_vote e ≡ ok (entry_bytes e)
unfolding serialize_vote
serialize_vote-entry_bytes e h =
    let parts =
      be_bytes 8 e.timestamp
      ∷ be_bytes 4 (length e.voter_id)
      ∷ e.voter_id
      ∷ be_bytes 4 (length e.encrypted_vote)
      ∷ map (be_bytes 32) e.encrypted_vote in
    let whole : body e ≡ concat parts = unfold body in refl in
    let total : sum_lengths 4 parts ≡ 4 + length (body e) =
      sum_lengths-concat 4 parts ∙ ap (λ (b : Bytes). 4 + length b) (sym whole) in
    rw
      (
        write-alloc 8 e.timestamp 8 refl (omega (arith, h.time_fits)),
        write-alloc 4 (length e.voter_id) 4 refl (omega (arith, h.size_fits, length-body e)),
        write-alloc 4 (length e.encrypted_vote) 4 refl (omega (arith, h.size_fits, length-body e)),
        values-fit e.encrypted_vote h.values_fit,
        total,
        write-alloc_front 4 (4 + length (body e)) (4 + length (body e)) (length (body e)) refl
            h.size_fits,
      )
      (ap ok (filled e parts whole))
