-- ===== src/VoteLog/Replay.antt =====
-- A log is replayed as it was written, however the stream cuts it into chunks.
use node_ecies_lib.Prelude.{
  ℕ, zero, suc, ◌<◌, ◌≤◌, ◌≡◌, refl, sym, ap, ◌∙◌, Bool-cases, none, inl, inr, List, [], ◌∷◌, ◌++◌,
  length, length-append, length-drop, append_assoc, take, drop, All, arith, ltb, ltb→lt, lt→ltb,
}
use node_ecies_lib.Errors.{ok}
use node_ecies_lib.Buffer.{Bytes, concat, subarray, subarray_from, read_uint_be}
use node_ecies_lib.VoteLog.Entry.{Entry, Replayed, deserialize_vote, drain, replay_votes, yielded}
use node_ecies_lib.VoteLog.Writing.{entry_bytes, IsLoggable, length-body}
use node_ecies_lib.VoteLog.Reading.{
  length-entry_bytes, read-entry_bytes, deserialize_vote-entry_bytes,
}

-- The bytes of the entries, one behind the other.
abbrev pub log_bytes : List Entry → Bytes
log_bytes [] = []
log_bytes (e ∷ es) = entry_bytes e ++ log_bytes es

-- The buffer does not hold the whole of the first entry.
abbrev pub IsPartial : Bytes → List Entry → Type 0
IsPartial b [] = Unit
IsPartial b (e ∷ es) = length b < length (entry_bytes e)

-- Of a log of the entries `es` of which `missing` has not been read, `r` has yielded a first part,
-- keeps the bytes of no whole entry behind it, and has thrown nothing.
pub record IsReplayed (es : List Entry) (missing : Bytes) (r : Replayed) : Type 0 where
  pub left : List Entry
  pub split : es ≡ r.entries ++ left
  pub kept : r.buf ++ missing ≡ log_bytes left
  pub partial : IsPartial r.buf left
  pub clean : r.error ≡ none
  pub loggable : All IsLoggable left

entry-pos : (e : Entry) → 20 ≤ length (entry_bytes e)
entry-pos e = omega (arith, length-entry_bytes e, length-body e)

abbrev stopped : Bytes → Replayed
stopped b = record { entries = []; buf = b; error = none }

stopped-IsReplayed :
    (es : List Entry) (b missing : Bytes)
    → All IsLoggable es
    → b ++ missing ≡ log_bytes es
    → IsPartial b es
    → IsReplayed es missing (stopped b)
stopped-IsReplayed es b missing h e p = record {
  left = es;
  split = refl;
  kept = e;
  partial = p;
  clean = refl;
  loggable = h;
}

yielded-IsReplayed :
    (e : Entry) (es : List Entry) (missing : Bytes) (r : Replayed)
    → IsReplayed es missing r
    → IsReplayed (e ∷ es) missing (yielded e r)
yielded-IsReplayed e es missing r h = record {
  left = h.left;
  split = ap (λ (t : List Entry). e ∷ t) h.split;
  kept = h.kept;
  partial = h.partial;
  clean = h.clean;
  loggable = h.loggable;
}

abbrev first_or : ℕ → Bytes → ℕ
first_or n [] = n
first_or n (b ∷ bs) = b

-- Two ways to cut the same bytes, of which the second cuts no later.
cut :
    (x y b rest : Bytes)
    → b ++ rest ≡ x ++ y
    → length x ≤ length b
    → (take (length x) b ≡ x) × (drop (length x) b ++ rest ≡ y)
cut [] y b rest e h = (refl, e)
cut (c ∷ x) y [] rest e h = absurd (omega arith)
cut (c ∷ x) y (d ∷ b) rest e h =
    let (first, later) = cut x y b rest (ap (drop 1) e) (omega arith) in
    (
      ap (λ (n : ℕ). n ∷ take (length x) b) (ap (first_or 0) e) ∙ ap (λ (t : Bytes). c ∷ t) first,
      later,
    )

read-append : (b rest : Bytes) → 4 ≤ length b → read_uint_be 4 b 0 ≡ read_uint_be 4 (b ++ rest) 0
unfolding read_uint_be subarray
read-append [] rest h = absurd (omega arith)
read-append (a ∷ []) rest h = absurd (omega arith)
read-append (a ∷ b ∷ []) rest h = absurd (omega arith)
read-append (a ∷ b ∷ c ∷ []) rest h = absurd (omega arith)
read-append (a ∷ b ∷ c ∷ d ∷ bs) rest h = ground arith

read_whole :
    (x : Entry) (b : Bytes)
    → IsLoggable x
    → take (length (entry_bytes x)) b ≡ entry_bytes x
    → deserialize_vote (subarray b 0 (length (entry_bytes x))) ≡ ok x
unfolding subarray
read_whole x b h first =
    ap (λ (n : ℕ). deserialize_vote (take n b)) {y = length (entry_bytes x)} (omega arith)
    ∙ ap deserialize_vote first
    ∙ deserialize_vote-entry_bytes x h

empty-IsPartial : (es : List Entry) (b : Bytes) → length b ≡ 0 → IsPartial b es
empty-IsPartial [] b h = tt
empty-IsPartial (e ∷ es) b h = omega (arith, entry-pos e)

read-first :
    (x : Entry) (es : List Entry) (b missing : Bytes)
    → IsLoggable x
    → b ++ missing ≡ entry_bytes x ++ log_bytes es
    → 8 ≤ length b
    → read_uint_be 4 b 0 ≡ ok (length (entry_bytes x))
read-first x es b missing h e many =
    read-append b missing (omega arith)
    ∙ ap (λ (t : Bytes). read_uint_be 4 t 0) e
    ∙ read-entry_bytes x (log_bytes es) h

drain-IsReplayed :
    (fuel : ℕ) (es : List Entry) (b missing : Bytes)
    → All IsLoggable es
    → b ++ missing ≡ log_bytes es
    → length b ≤ fuel
    → IsReplayed es missing (drain fuel b)
unfolding drain subarray_from
drain-IsReplayed zero es b missing h e f =
    stopped-IsReplayed es b missing h e (empty-IsPartial es b (omega arith))
drain-IsReplayed (suc fuel) [] b missing h e f =
    let none_left : length b ≡ 0 = omega (arith, ap length e, length-append b missing) in
    rw (lt→ltb (length b) 8 (omega arith)) (stopped-IsReplayed [] b missing h e tt)
drain-IsReplayed (suc fuel) (x ∷ es) b missing (hx, hes) e f =
    elim (Bool-cases (ltb (length b) 8)) [
      | inl few ↦ rw few (
          stopped-IsReplayed (x ∷ es) b missing (hx, hes) e
            (omega (arith, ltb→lt (length b) 8 few, entry-pos x)))
      | inr many ↦
          let size = read-first x es b missing hx e (ground arith) in
          elim (Bool-cases (ltb (length b) (length (entry_bytes x)))) [
            | inl short ↦
                rw (many, size, short)
                  (stopped-IsReplayed (x ∷ es) b missing (hx, hes) e
                    (ltb→lt (length b) (length (entry_bytes x)) short))
            | inr whole ↦
                let (first, later) =
                  cut (entry_bytes x) (log_bytes es) b missing e (ground arith) in
                rw (many, size, whole, read_whole x b hx first)
                  (yielded-IsReplayed x es missing (drain fuel (drop (length (entry_bytes x)) b)) (
                    drain-IsReplayed fuel es (drop (length (entry_bytes x)) b) missing hes later
                      (omega (arith, entry-pos x, length-drop (length (entry_bytes x)) b))))
          ]
    ]

chunks-IsReplayed :
    (chunks : List Bytes) (es : List Entry) (b missing : Bytes)
    → All IsLoggable es
    → b ++ (concat chunks ++ missing) ≡ log_bytes es
    → IsPartial b es
    → IsReplayed es missing (replay_votes b chunks)
unfolding replay_votes
chunks-IsReplayed [] es b missing h e p = stopped-IsReplayed es b missing h e p
chunks-IsReplayed (c ∷ cs) es b missing h e p =
    let d =
      drain-IsReplayed (length (b ++ c)) es (b ++ c) (concat cs ++ missing) h
        (append_assoc b c (concat cs ++ missing)
          ∙ ap (λ (t : Bytes). b ++ t) (sym (append_assoc c (concat cs) missing))
          ∙ e)
        (omega arith) in
    let now = drain (length (b ++ c)) (b ++ c) in
    let later = chunks-IsReplayed cs d.left now.buf missing d.loggable d.kept d.partial in
    rw (replay_votes, d.clean)
      (record {
        left = later.left;
        split =
            d.split
            ∙ ap (λ (t : List Entry). now.entries ++ t) later.split
            ∙ sym (append_assoc now.entries (replay_votes now.buf cs).entries later.left);
        kept = later.kept;
        partial = later.partial;
        clean = later.clean;
        loggable = later.loggable;
      })

-- Of a log that is cut off anywhere, what is replayed is a first part of its entries, the bytes
-- behind it do not reach the end of the next entry, and nothing is thrown.
pub replay_votes_cut :
    (es : List Entry) (chunks : List Bytes) (missing : Bytes)
    → All IsLoggable es
    → concat chunks ++ missing ≡ log_bytes es
    → IsReplayed es missing (replay_votes [] chunks)
replay_votes_cut es chunks missing h e =
    chunks-IsReplayed chunks es [] missing h e (empty-IsPartial es [] refl)
