-- ===== src/Poll/Results.antt =====
-- What a poll tells of its tallies: `tallies`, `leadingChoiceIndex`, `leadingChoice`, `getResults`,
-- `hasTie`, `tiedChoices`, `encryptedTotalVotes` and `getTotalVotes`. A percentage is given in
-- hundredths, before the division by 100 that makes it a floating-point number.
use Prim.Native.String.{String}
use node_ecies_lib.Prelude.{
  ℕ, zero, suc, ◌+◌, ◌-◌, ◌*◌, ◌/◌, Bool, not, Option, none, some, List, [], ◌∷◌, map, length,
  get_elem?, ltb, ◌==◌, if◌then◌else◌,
}
use node_ecies_lib.Paillier.{Paillier}
use node_ecies_lib.Poll.State.{Poll, get_voter_count}

pub record VotingPollResults : Type 0 where
  pub total_votes : ℕ
  pub tallies : List ℕ
  pub choices : List String
  pub percentages : List ℕ
  pub winner_index : ℕ
  pub winner_name : Option String
  pub voter_count : ℕ

-- tallies[i], which is in range wherever it is used.
unfoldable pub value_at : List ℕ → ℕ → ℕ
value_at ts i = elim (get_elem? ts i) [ none ↦ 0 | some t ↦ t ]

-- The loop over the indices from `i` on, `left` of them.
unfoldable pub lead_loop : List ℕ → ℕ → ℕ → ℕ → ℕ
unfolding value_at
lead_loop ts zero i best = best
lead_loop ts (suc left) i best =
    lead_loop ts left (suc i) (if ltb (value_at ts best) (value_at ts i) then i else best)

unfoldable pub leading_index : List ℕ → ℕ
unfolding lead_loop
leading_index ts = lead_loop ts (length ts - 1) 1 0

unfoldable pub total : List ℕ → ℕ
total [] = 0
total (t ∷ ts) = t + total ts

-- tallies.reduce((max, tally) => (tally > max ? tally : max), 0n)
unfoldable pub max_tally : ℕ → List ℕ → ℕ
max_tally best [] = best
max_tally best (t ∷ ts) = max_tally (if ltb best t then t else best) ts

-- tallies.filter((tally) => tally === maxTally).length
unfoldable pub count_equal : ℕ → List ℕ → ℕ
count_equal m [] = 0
count_equal m (t ∷ ts) = let rest = count_equal m ts in if t == m then suc rest else rest

unfoldable pub has_tie : List ℕ → Bool
unfolding max_tally count_equal
has_tie ts = ltb 1 (count_equal (max_tally 0 ts) ts)

-- choices.filter((_, index) => tallies[index] === maxTally), from index `i` on
unfoldable pub choices_with : List ℕ → ℕ → ℕ → List String → List String
unfolding value_at
choices_with ts m i [] = []
choices_with ts m i (x ∷ xs) =
    let rest = choices_with ts m (suc i) xs in if value_at ts i == m then x ∷ rest else rest

unfoldable pub percentage : ℕ → ℕ → ℕ
percentage total_votes t = if ltb 0 total_votes then (t * 10000) / total_votes else 0

module _ {C R : Type 0} (key : Paillier C R) where
  unfoldable pub decrypt_tallies : Poll C → List ℕ
  decrypt_tallies p = map key.decrypt p.votes

  unfoldable pub leading_choice : Poll C → Option String
  unfolding leading_index decrypt_tallies
  leading_choice p = get_elem? p.choices (leading_index (decrypt_tallies p))

  unfoldable pub get_results : Poll C → VotingPollResults
  unfolding decrypt_tallies total percentage leading_index leading_choice get_voter_count
  get_results p = record {
    total_votes = total (decrypt_tallies p);
    tallies = decrypt_tallies p;
    choices = p.choices;
    percentages = map (percentage (total (decrypt_tallies p))) (decrypt_tallies p);
    winner_index = leading_index (decrypt_tallies p);
    winner_name = leading_choice p;
    voter_count = get_voter_count p;
  }

  unfoldable pub tied_choices : Poll C → List String
  unfolding has_tie decrypt_tallies choices_with max_tally
  tied_choices p =
      if not (has_tie (decrypt_tallies p))
      then []
      else choices_with (decrypt_tallies p) (max_tally 0 (decrypt_tallies p)) 0 p.choices

  -- votes.reduce((sum, vote) => addition(sum, vote), sum)
  unfoldable pub add_votes : C → List C → C
  add_votes sum [] = sum
  add_votes sum (v ∷ votes) = add_votes (key.addition sum v) votes

  unfoldable pub encrypted_total_votes : R → Poll C → C
  unfolding add_votes
  encrypted_total_votes r p = add_votes (key.encrypt r 0) p.votes

  unfoldable pub get_total_votes : R → Poll C → ℕ
  unfolding encrypted_total_votes
  get_total_votes r p = key.decrypt (encrypted_total_votes r p)
