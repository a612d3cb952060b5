-- ===== src/Poll/Counting.antt =====
-- What a call of a voting method adds to the tallies, whether or not a receipt could be made.
use Prim.Native.String.{String}
use node_ecies_lib.Prelude.{
  ℕ, ◌+◌, ◌%◌, ◌<◌, ◌≡◌, ap, Bool, true, false, Option, none, some, List, [], ◌∷◌, length, arith,
}
use node_ecies_lib.Prelude.Int.{ℤ, pos, negsuc, pos_part}
use node_ecies_lib.Errors.{Error}
use node_ecies_lib.Buffer.{Bytes}
use node_ecies_lib.Paillier.{Paillier, IsHomomorphic}
use node_ecies_lib.Poll.State.{
  Poll, Outcome, done, threw, PollError, poll_closed, receipt_failed, ReceiptService, ReceiptInput,
  member_voted, generate_encrypted_receipt,
}
use node_ecies_lib.Poll.Ballots.{
  add_at, vote_loop, rank_loop, approve_loop, check_choices, out_of_range,
}
use node_ecies_lib.Poll.Tallies.{tally, tally-add_at}
use node_ecies_lib.Poll.Loops.{tally-vote_loop, tally-rank_loop, tally-approve_loop}
use node_ecies_lib.Poll.Cast.{Ballot, plain, weighted, ranked, approval, amount, IsWellSized, cast}
use node_ecies_lib.Poll.Storing.{generate_keeps}

-- Was the ballot added before the method ended?
abbrev is_counted {ℓ} : {A : Type ℓ} → Outcome A → Bool
is_counted (done r) = true
is_counted (threw (receipt_failed x)) = true
is_counted (threw e) = false

abbrev reason : Option PollError → PollError
reason none = poll_closed
reason (some e) = e

check_choices-not_counted :
    (n : ℕ) (zs : List ℤ) (seen : List ℕ) (e : PollError)
    → check_choices n zs seen ≡ some e
    → is_counted {A = Unit {0}} (threw e) ≡ false
unfolding check_choices
check_choices-not_counted n [] seen e h = cc
check_choices-not_counted n (z ∷ zs) seen e h =
    ground (arith, check_choices-not_counted n zs (pos_part z ∷ seen) e)

out_of_range-lt : (z : ℤ) (n : ℕ) → out_of_range z n ≡ false → pos_part z < n
unfolding out_of_range
out_of_range-lt (pos i) n e = ground arith
out_of_range-lt (negsuc i) n e = cc

module _ {C R : Type 0} (key : Paillier C R) (service : ReceiptService) (rand : ℕ → R)
    (input : ReceiptInput) where
  generate_failed :
      (p : Poll C) (m : String) (x : Error)
      → (generate_encrypted_receipt service p input m).1 ≡ threw (receipt_failed x)
      → (generate_encrypted_receipt service p input m).0.receipts ≡ p.receipts
  unfolding generate_encrypted_receipt
  generate_failed p m x e = ground arith

  cast_unstored :
      (p : Poll C) (b : Ballot) (m : String) (x : Error)
      → (cast key service rand input p b m).1 ≡ threw (receipt_failed x)
      → member_voted (cast key service rand input p b m).0 m ≡ false
  unfolding cast
  cast_unstored p (plain z) m x e =
      let votes = vote_loop key rand (pos_part z) (length p.choices) 0 p.votes in
      ground (arith, generate_failed (record p { votes = votes }) m x)
  cast_unstored p (weighted z w) m x e =
      let votes = add_at key (rand 0) p.votes (pos_part z) (pos_part w) in
      ground (arith, generate_failed (record p { votes = votes }) m x)
  cast_unstored p (ranked zs) m x e =
      let votes = rank_loop key rand (length zs) zs 0 p.votes in
      let checked = check_choices (length p.choices) zs [] in
      ground (
        arith,
        generate_failed (record p { votes = votes }) m x,
        check_choices-not_counted (length p.choices) zs [] (reason checked),
      )
  cast_unstored p (approval zs) m x e =
      let votes = approve_loop key rand zs 0 p.votes in
      let checked = check_choices (length p.choices) zs [] in
      ground (
        arith,
        generate_failed (record p { votes = votes }) m x,
        check_choices-not_counted (length p.choices) zs [] (reason checked),
      )

  module _ (law : IsHomomorphic key) where
    cast_adds :
        (p : Poll C) (b : Ballot) (m : String)
        → IsWellSized p
        → is_counted (cast key service rand input p b m).1 ≡ true
        → (k : ℕ)
        → tally key (cast key service rand input p b m).0.votes k
          ≡ (tally key p.votes k + amount b k) % key.modulus
    unfolding cast
    cast_adds p (plain z) m well e k =
        let voted = record p {
          votes = vote_loop key rand (pos_part z) (length p.choices) 0 p.votes;
        } in
        ground (
          arith,
          generate_keeps key service rand input voted m,
          out_of_range-lt z (length p.choices),
          rw (← well) at (tally-vote_loop key law rand (pos_part z) p.votes k),
        )
    cast_adds p (weighted z w) m well e k =
        let voted = record p { votes = add_at key (rand 0) p.votes (pos_part z) (pos_part w) } in
        ground (
          arith,
          generate_keeps key service rand input voted m,
          out_of_range-lt z (length p.choices),
          tally-add_at key law (rand 0) p.votes (pos_part z) (pos_part w) k,
        )
    cast_adds p (ranked zs) m well e k =
        let voted = record p { votes = rank_loop key rand (length zs) zs 0 p.votes } in
        ground (
          arith,
          generate_keeps key service rand input voted m,
          tally-rank_loop key law rand (length zs) zs 0 p.votes [] k (omega arith),
          check_choices-not_counted (length p.choices) zs []
              (reason (check_choices (length p.choices) zs [])),
        )
    cast_adds p (approval zs) m well e k =
        let voted = record p { votes = approve_loop key rand zs 0 p.votes } in
        ground (
          arith,
          generate_keeps key service rand input voted m,
          tally-approve_loop key law rand zs 0 p.votes [] k,
          check_choices-not_counted (length p.choices) zs []
              (reason (check_choices (length p.choices) zs [])),
        )

    -- A ballot for which the method returns a receipt adds what it is worth to every tally.
    pub cast-tally :
        (p : Poll C) (b : Ballot) (m : String) (receipt : Bytes)
        → IsWellSized p
        → (cast key service rand input p b m).1 ≡ done receipt
        → (k : ℕ)
        → tally key (cast key service rand input p b m).0.votes k
          ≡ (tally key p.votes k + amount b k) % key.modulus
    cast-tally p b m receipt well e k = cast_adds p b m well (ap is_counted e) k

    -- Where signing or encrypting the receipt throws, the ballot has been added to the tallies all the
    -- same, and its member counts as one who has not voted.
    pub cast_receipt_failed :
        (p : Poll C) (b : Ballot) (m : String) (x : Error)
        → IsWellSized p
        → (cast key service rand input p b m).1 ≡ threw (receipt_failed x)
        → ((k : ℕ)
            → tally key (cast key service rand input p b m).0.votes k
              ≡ (tally key p.votes k + amount b k) % key.modulus)
          × (member_voted (cast key service rand input p b m).0 m ≡ false)
    cast_receipt_failed p b m x well e =
        (λ k. cast_adds p b m well (ap is_counted e) k, cast_unstored p b m x e)
