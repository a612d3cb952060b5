-- ===== src/VoteLog/Appending.antt =====
-- A log that `appendVote` wrote, replayed.
use node_ecies_lib.Prelude.{
  ℕ, suc, ◌+◌, ◌≡◌, refl, sym, ap, ◌∙◌, Option, none, List, [], ◌∷◌, ◌++◌, map, length,
  length-append, length-map, append_assoc, append-nil, All, arith,
}
use node_ecies_lib.Errors.{Error, Result, ok, ◌>>=◌}
use node_ecies_lib.Buffer.{Bytes, concat}
use node_ecies_lib.Ecies.{PlatformId}
use node_ecies_lib.VoteLog.Entry.{Entry, Logger, Replayed, voter_bytes, append_vote, replay_votes}
use node_ecies_lib.VoteLog.Writing.{entry_bytes, IsLoggable, serialize_vote-entry_bytes}
use node_ecies_lib.VoteLog.Replay.{log_bytes, IsPartial, IsReplayed, replay_votes_cut}

-- The arguments of one call of `appendVote`.
pub record Vote (T : Type 0) : Type 0 where
  pub voter : PlatformId T
  pub encrypted_vote : List ℕ
  pub timestamp : ℕ

-- What `appendVote` writes of a vote: its voter's ID where that is a buffer or a byte array, and one
-- zero byte in the place of every other ID.
abbrev pub logged : {T : Type 0} → Vote T → Entry
logged v = record {
  voter_id = voter_bytes v.voter;
  encrypted_vote = v.encrypted_vote;
  timestamp = v.timestamp;
}

abbrev pub append_all : {T : Type 0} → Logger → List (Vote T) → Result Logger
append_all l [] = ok l
append_all l (v ∷ vs) =
    append_vote l v.voter v.encrypted_vote v.timestamp >>= λ next. append_all next vs

-- What a logger holds when it has appended the entries.
abbrev appended : Logger → List Entry → Logger
appended l es = record { log = l.log ++ log_bytes es; vote_count = l.vote_count + length es }

abbrev logger : Bytes → ℕ → Logger
logger b n = record { log = b; vote_count = n }

same_logger : {a b : Bytes} {n m : ℕ} → a ≡ b → n ≡ m → ok (logger a n) ≡ ok (logger b m)
same_logger {a} {b} {n} {m} e f =
    ap (λ (t : Bytes). ok (logger t n)) e ∙ ap (λ (k : ℕ). ok (logger b k)) f

append_all_lem :
    {T : Type 0} (l : Logger) (vs : List (Vote T))
    → All IsLoggable (map logged vs)
    → append_all l vs ≡ ok (appended l (map logged vs))
unfolding append_vote
append_all_lem l [] h = same_logger (sym (append-nil l.log)) (omega arith)
append_all_lem l (v ∷ vs) (hv, hvs) =
    let b = entry_bytes (logged v) in
    rw (append_vote, serialize_vote-entry_bytes (logged v) hv)
      (append_all_lem (record { log = l.log ++ b; vote_count = suc l.vote_count }) vs hvs
        ∙ same_logger (append_assoc l.log b (log_bytes (map logged vs))) (omega arith))

abbrev replayed : List Entry → Bytes → Option Error → Replayed
replayed es b e = record { entries = es; buf = b; error = e }

nothing_left :
    (es : List Entry) (b : Bytes) → b ++ [] ≡ log_bytes es → IsPartial b es → (es ≡ []) × (b ≡ [])
nothing_left [] b e p = (refl, sym (append-nil b) ∙ e)
nothing_left (x ∷ es) b e p = absurd (
    omega (arith, ap length e, length-append b [], length-append (entry_bytes x) (log_bytes es), p))

whole :
    (es : List Entry) (r : Replayed)
    → IsReplayed es [] r
    → r ≡ record { entries = es; buf = []; error = none }
whole es r h =
    let (none_left, drained) = nothing_left h.left r.buf h.kept h.partial in
    let all : r.entries ≡ es =
      sym (append-nil r.entries)
      ∙ ap (λ (t : List Entry). r.entries ++ t) (sym none_left)
      ∙ sym h.split in
    ap (λ (t : List Entry). replayed t r.buf r.error) all
    ∙ ap (λ (t : Bytes). replayed es t r.error) drained
    ∙ ap (λ (t : Option Error). replayed es [] t) h.clean

-- Votes that the log can hold are all appended, and counted. Whatever chunks the stream cuts the
-- log into, as many entries are replayed in their order, with nothing left over and nothing thrown:
-- each has its vote's values and timestamp, and its voter's ID where that is a buffer or a byte
-- array. An ID of another type is lost: its entry has one zero byte in its place.
pub replay_votes-append_all :
    {T : Type 0} (vs : List (Vote T)) (chunks : List Bytes)
    → All IsLoggable (map logged vs)
    → concat chunks ≡ log_bytes (map logged vs)
    → (append_all (record { log = []; vote_count = 0 }) vs
        ≡ ok (record { log = concat chunks; vote_count = length vs }))
      × (replay_votes [] chunks ≡ record { entries = map logged vs; buf = []; error = none })
replay_votes-append_all vs chunks h e =
    let es = map logged vs in
    (
      append_all_lem (record { log = []; vote_count = 0 }) vs h
          ∙ same_logger (sym e) (omega (arith, length-map vs logged)),
      whole es (replay_votes [] chunks)
          (replay_votes_cut es chunks [] h (append-nil (concat chunks) ∙ e)),
    )
