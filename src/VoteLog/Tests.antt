-- ===== src/VoteLog/Tests.antt =====
-- The theorems on the log of votes at two votes, of which one has a voter without a binary ID.
use node_ecies_lib.Prelude.{
  ℕ, ◌^◌, ◌<◌, ◌≡◌, refl, List, [], ◌∷◌, ◌++◌, length, map, take, drop, All, arith, none,
}
use node_ecies_lib.Errors.{ok}
use node_ecies_lib.Buffer.{Bytes, IsByte, concat, be_bytes, read_uint_be}
use node_ecies_lib.Ecies.{buffer, other}
use node_ecies_lib.VoteLog.Entry.{
  Entry, serialize_vote, deserialize_vote, read_values, replay_votes,
}
use node_ecies_lib.VoteLog.Writing.{body, entry_bytes, IsLoggable, length-body}
use node_ecies_lib.VoteLog.Reading.{deserialize_vote-serialize_vote}
use node_ecies_lib.VoteLog.Replay.{log_bytes, IsReplayed, replay_votes_cut}
use node_ecies_lib.VoteLog.Appending.{Vote, logged, append_all, replay_votes-append_all}
use node_ecies_lib.VoteLog.Bounds.{deserialize_vote-lt}

abbrev votes : List (Vote ℕ)
votes =
    record { voter = buffer (1 ∷ 2 ∷ []); encrypted_vote = 7 ∷ 300 ∷ []; timestamp = 1700000000000 }
    ∷ record { voter = other 5; encrypted_vote = []; timestamp = 0 }
    ∷ []

abbrev entry : Entry
entry = record { voter_id = 1 ∷ 2 ∷ []; encrypted_vote = 7 ∷ 300 ∷ []; timestamp = 1700000000000 }

entry-IsLoggable : IsLoggable entry
entry-IsLoggable = record {
  time_fits = omega arith;
  size_fits = omega (arith, length-body entry);
  values_fit = (omega arith, (omega arith, tt));
}

votes-IsLoggable : All IsLoggable (map logged votes)
votes-IsLoggable = (
  entry-IsLoggable,
  (
    record {
      time_fits = omega arith;
      size_fits =
          omega
            (arith, length-body (record { voter_id = 0 ∷ []; encrypted_vote = []; timestamp = 0 }));
      values_fit = tt;
    },
    tt,
  ),
)

deserialize_vote-serialize_vote_example :
    (b : Bytes) × (serialize_vote entry ≡ ok b)
    × (read_uint_be 4 b 0 ≡ ok (length b))
    × (deserialize_vote b ≡ ok entry)
deserialize_vote-serialize_vote_example = deserialize_vote-serialize_vote entry entry-IsLoggable

-- The first 50 bytes of the log, in chunks of 7 and 43.
abbrev log : Bytes
log = log_bytes (map logged votes)

abbrev chunks : List Bytes
chunks = take 7 (take 50 log) ∷ drop 7 (take 50 log) ∷ []

chunks_cut : concat chunks ++ drop 50 log ≡ log
unfolding entry_bytes be_bytes body
chunks_cut = refl

whole_chunks : concat (take 7 log ∷ drop 7 log ∷ []) ≡ log
unfolding entry_bytes be_bytes body
whole_chunks = refl

replay_votes-append_all_example :
    (append_all (record { log = []; vote_count = 0 }) votes
      ≡ ok (record { log = concat (take 7 log ∷ drop 7 log ∷ []); vote_count = 2 }))
    × (replay_votes [] (take 7 log ∷ drop 7 log ∷ [])
        ≡ record { entries = map logged votes; buf = []; error = none })
replay_votes-append_all_example =
    replay_votes-append_all votes (take 7 log ∷ drop 7 log ∷ []) votes-IsLoggable whole_chunks

replay_votes_cut_example : IsReplayed (map logged votes) (drop 50 log) (replay_votes [] chunks)
replay_votes_cut_example =
    replay_votes_cut (map logged votes) chunks (drop 50 log) votes-IsLoggable chunks_cut

abbrev bytes : Bytes
bytes =
    0 ∷ 0 ∷ 0 ∷ 23 ∷ 0 ∷ 0 ∷ 0 ∷ 0 ∷ 0 ∷ 0 ∷ 0 ∷ 9 ∷ 0 ∷ 0 ∷ 0 ∷ 1 ∷ 6 ∷ 0 ∷ 0 ∷ 0 ∷ 1 ∷ 255 ∷ 1
    ∷ []

bytes_are : All IsByte bytes
bytes_are = ground arith

bytes_read :
    deserialize_vote bytes
    ≡ ok (record { voter_id = 6 ∷ []; encrypted_vote = 65281 ∷ []; timestamp = 9 })
unfolding deserialize_vote read_values
bytes_read = refl

deserialize_vote-lt_example : All (λ v. v < 256 ^ 32) (65281 ∷ [])
deserialize_vote-lt_example =
    deserialize_vote-lt bytes
      (record { voter_id = 6 ∷ []; encrypted_vote = 65281 ∷ []; timestamp = 9 }) bytes_are
      bytes_read
