-- ===== src/Poll/Ballots.antt =====
-- The four ways to vote. A method returns the poll that it leaves behind and its outcome: the votes
-- are added before the receipt is made, and stay added when that throws.
-- A choice index is an integer; a fractional index is not modelled.
use Prim.Native.String.{String}
use node_ecies_lib.Prelude.{
  ℕ, zero, suc, ◌-◌, Bool, true, false, not, ◌||◌, Option, none, some, List, [], ◌∷◌, length,
  get_elem?, set, leb, ◌==◌, if◌then◌else◌,
}
use node_ecies_lib.Prelude.Int.{ℤ, pos, negsuc, pos_part, gt_ℕ}
use node_ecies_lib.Buffer.{Bytes}
use node_ecies_lib.Paillier.{Paillier}
use node_ecies_lib.Poll.State.{
  Poll, Outcome, threw, PollError, poll_closed, already_voted, invalid_choice, weight_not_positive,
  no_ranked_choice, duplicate_choice, no_approved_choice, ReceiptService, ReceiptInput, is_closed,
  member_voted, generate_encrypted_receipt,
}

-- choiceIndex < 0 || choiceIndex >= n
unfoldable pub out_of_range : ℤ → ℕ → Bool
out_of_range (pos i) n = leb n i
out_of_range (negsuc i) n = true

-- seen.has(i)
unfoldable pub seen_before : ℕ → List ℕ → Bool
seen_before i [] = false
seen_before i (j ∷ js) = j == i || seen_before i js

-- The validation loop of `voteRanked` and `voteApproval`: the first error, or none.
unfoldable pub check_choices : ℕ → List ℤ → List ℕ → Option PollError
unfolding out_of_range seen_before
check_choices n [] seen = none
check_choices n (z ∷ zs) seen =
    let rest = check_choices n zs (pos_part z ∷ seen) in
    if out_of_range z n
    then some invalid_choice
    else if seen_before (pos_part z) seen
    then some duplicate_choice
    else rest

module _ {C R : Type 0} (key : Paillier C R) where
  -- votes[i] = addition(votes[i], encrypt(amount)). The index is in range wherever it is used, as
  -- there are as many votes as choices.
  unfoldable pub add_at : R → List C → ℕ → ℕ → List C
  add_at r votes i amount = elim (get_elem? votes i) [
    | none ↦ votes
    | some v ↦ set votes i (key.addition v (key.encrypt r amount))
  ]

  -- 1 for the chosen index and 0 for every other one, from index `i` on.
  unfoldable pub vote_loop : (ℕ → R) → ℕ → ℕ → ℕ → List C → List C
  unfolding add_at
  vote_loop rand choice zero i votes = votes
  vote_loop rand choice (suc left) i votes =
      vote_loop rand choice left (suc i) (add_at (rand i) votes i (if i == choice then 1 else 0))

  -- maxPoints - i points for the i-th ranked choice.
  unfoldable pub rank_loop : (ℕ → R) → ℕ → List ℤ → ℕ → List C → List C
  unfolding add_at
  rank_loop rand max_points [] i votes = votes
  rank_loop rand max_points (z ∷ zs) i votes =
      rank_loop rand max_points zs (suc i) (add_at (rand i) votes (pos_part z) (max_points - i))

  unfoldable pub approve_loop : (ℕ → R) → List ℤ → ℕ → List C → List C
  unfolding add_at
  approve_loop rand [] i votes = votes
  approve_loop rand (z ∷ zs) i votes =
      approve_loop rand zs (suc i) (add_at (rand i) votes (pos_part z) 1)

  module _ (service : ReceiptService) (rand : ℕ → R) (input : ReceiptInput) where
    unfoldable pub vote : Poll C → ℤ → String → Poll C × Outcome Bytes
    unfolding is_closed member_voted
    vote p choice member =
        if is_closed p
        then (p, threw poll_closed)
        else if member_voted p member
        then (p, threw already_voted)
        else if out_of_range choice (length p.choices)
        then (p, threw invalid_choice)
        else generate_encrypted_receipt service
            (record p { votes = vote_loop rand (pos_part choice) (length p.choices) 0 p.votes })
            input member

    unfoldable pub vote_weighted : Poll C → ℤ → ℤ → String → Poll C × Outcome Bytes
    unfolding is_closed member_voted
    vote_weighted p choice weight member =
        if is_closed p
        then (p, threw poll_closed)
        else if member_voted p member
        then (p, threw already_voted)
        else if out_of_range choice (length p.choices)
        then (p, threw invalid_choice)
        else if not (gt_ℕ weight 0)
        then (p, threw weight_not_positive)
        else generate_encrypted_receipt service
            (record p { votes = add_at (rand 0) p.votes (pos_part choice) (pos_part weight) }) input
            member

    unfoldable pub vote_ranked : Poll C → List ℤ → String → Poll C × Outcome Bytes
    unfolding is_closed member_voted
    vote_ranked p ranked member =
        if is_closed p
        then (p, threw poll_closed)
        else if member_voted p member
        then (p, threw already_voted)
        else if length ranked == 0
        then (p, threw no_ranked_choice)
        else elim (check_choices (length p.choices) ranked []) [
          | some e ↦ (p, threw e)
          | none ↦
              generate_encrypted_receipt service
                (record p { votes = rank_loop rand (length ranked) ranked 0 p.votes }) input member
        ]

    unfoldable pub vote_approval : Poll C → List ℤ → String → Poll C × Outcome Bytes
    unfolding is_closed member_voted
    vote_approval p approved member =
        if is_closed p
        then (p, threw poll_closed)
        else if member_voted p member
        then (p, threw already_voted)
        else if length approved == 0
        then (p, threw no_approved_choice)
        else elim (check_choices (length p.choices) approved []) [
          | some e ↦ (p, threw e)
          | none ↦
              generate_encrypted_receipt service
                (record p { votes = approve_loop rand approved 0 p.votes }) input member
        ]
