-- ===== src/Poll/Storing.antt =====
-- What a call of a voting method does to the receipts and to the size of the poll.
use Prim.Native.String.{String}
use node_ecies_lib.Prelude.{
  ℕ, zero, suc, ◌-◌, ◌≡◌, refl, ◌∙◌, false, List, [], ◌∷◌, length, ◌==◌, arith, if◌then◌else◌,
}
use node_ecies_lib.Prelude.Int.{ℤ, pos_part}
use node_ecies_lib.Errors.{ok}
use node_ecies_lib.Buffer.{Bytes}
use node_ecies_lib.Paillier.{Paillier}
use node_ecies_lib.Poll.State.{
  Poll, done, threw, PollError, ReceiptService, ReceiptInput, member_voted, encrypted_receipt,
  insert, generate_encrypted_receipt,
}
use node_ecies_lib.Poll.Ballots.{add_at, vote_loop, rank_loop, approve_loop}
use node_ecies_lib.Poll.Tallies.{length-add_at}
use node_ecies_lib.Poll.Cast.{Ballot, plain, weighted, ranked, approval, IsWellSized, cast}

module _ {C R : Type 0} (key : Paillier C R) (rand : ℕ → R) where
  length-vote_loop :
      (choice left i : ℕ) (votes : List C)
      → length (vote_loop key rand choice left i votes) ≡ length votes
  unfolding vote_loop
  length-vote_loop choice zero i votes = refl
  length-vote_loop choice (suc left) i votes =
      let amount : ℕ = if i == choice then 1 else 0 in
      length-vote_loop choice left (suc i) (add_at key (rand i) votes i amount)
      ∙ length-add_at key (rand i) votes i amount

  length-rank_loop :
      (m : ℕ) (zs : List ℤ) (i : ℕ) (votes : List C)
      → length (rank_loop key rand m zs i votes) ≡ length votes
  unfolding rank_loop
  length-rank_loop m [] i votes = refl
  length-rank_loop m (z ∷ zs) i votes =
      length-rank_loop m zs (suc i) (add_at key (rand i) votes (pos_part z) (m - i))
      ∙ length-add_at key (rand i) votes (pos_part z) (m - i)

  length-approve_loop :
      (zs : List ℤ) (i : ℕ) (votes : List C)
      → length (approve_loop key rand zs i votes) ≡ length votes
  unfolding approve_loop
  length-approve_loop [] i votes = refl
  length-approve_loop (z ∷ zs) i votes =
      length-approve_loop zs (suc i) (add_at key (rand i) votes (pos_part z) 1)
      ∙ length-add_at key (rand i) votes (pos_part z) 1

module _ {C R : Type 0} (key : Paillier C R) (service : ReceiptService) (rand : ℕ → R)
    (input : ReceiptInput) where
  -- A receipt changes nothing but the receipts, and those only when it is made.
  pub generate_keeps :
      (p : Poll C) (m : String)
      → let q = (generate_encrypted_receipt service p input m).0 in
        (q.votes ≡ p.votes) × (q.choices ≡ p.choices) × (q.closed_at ≡ p.closed_at)
  unfolding generate_encrypted_receipt
  generate_keeps p m = ground arith

  generate_stores :
      (p : Poll C) (m : String) (r : Bytes)
      → (generate_encrypted_receipt service p input m).1 ≡ done r
      → (generate_encrypted_receipt service p input m).0.receipts ≡ insert m r p.receipts
  unfolding generate_encrypted_receipt
  generate_stores p m r e = ground arith

  -- A call that returns a receipt stores it under a member who had none.
  pub cast-stores :
      (p : Poll C) (b : Ballot) (m : String) (r : Bytes)
      → (cast key service rand input p b m).1 ≡ done r
      → ((cast key service rand input p b m).0.receipts ≡ insert m r p.receipts)
        × (member_voted p m ≡ false)
  unfolding cast
  cast-stores p (plain z) m r e =
      let votes = vote_loop key rand (pos_part z) (length p.choices) 0 p.votes in
      ground (arith, generate_stores (record p { votes = votes }) m r)
  cast-stores p (weighted z w) m r e =
      let votes = add_at key (rand 0) p.votes (pos_part z) (pos_part w) in
      ground (arith, generate_stores (record p { votes = votes }) m r)
  cast-stores p (ranked zs) m r e =
      let votes = rank_loop key rand (length zs) zs 0 p.votes in
      ground (arith, generate_stores (record p { votes = votes }) m r)
  cast-stores p (approval zs) m r e =
      let votes = approve_loop key rand zs 0 p.votes in
      ground (arith, generate_stores (record p { votes = votes }) m r)

  -- A call that throws leaves the poll as it is, where the receipt can be signed and encrypted.
  pub cast-throws :
      (p : Poll C) (b : Ballot) (m : String) (encrypted : Bytes) (e : PollError)
      → encrypted_receipt service input m ≡ ok encrypted
      → (cast key service rand input p b m).1 ≡ threw e
      → (cast key service rand input p b m).0 ≡ p
  unfolding cast generate_encrypted_receipt
  cast-throws p (plain z) m encrypted e works h = ground arith
  cast-throws p b m encrypted e works h = ground arith

  generate_encrypts :
      (p : Poll C) (m : String) (r : Bytes)
      → (generate_encrypted_receipt service p input m).1 ≡ done r
      → encrypted_receipt service input m ≡ ok r
  unfolding generate_encrypted_receipt
  generate_encrypts p m r e = ground arith

  -- The receipt that a call returns is the encrypted receipt of its input and member.
  pub cast-encrypts :
      (p : Poll C) (b : Ballot) (m : String) (r : Bytes)
      → (cast key service rand input p b m).1 ≡ done r
      → encrypted_receipt service input m ≡ ok r
  unfolding cast
  cast-encrypts p (plain z) m r e =
      let votes = vote_loop key rand (pos_part z) (length p.choices) 0 p.votes in
      ground (arith, generate_encrypts (record p { votes = votes }) m r)
  cast-encrypts p (weighted z w) m r e =
      let votes = add_at key (rand 0) p.votes (pos_part z) (pos_part w) in
      ground (arith, generate_encrypts (record p { votes = votes }) m r)
  cast-encrypts p (ranked zs) m r e =
      let votes = rank_loop key rand (length zs) zs 0 p.votes in
      ground (arith, generate_encrypts (record p { votes = votes }) m r)
  cast-encrypts p (approval zs) m r e =
      let votes = approve_loop key rand zs 0 p.votes in
      ground (arith, generate_encrypts (record p { votes = votes }) m r)

  -- Every call keeps as many votes as choices.
  pub cast-IsWellSized :
      (p : Poll C) (b : Ballot) (m : String)
      → IsWellSized p
      → IsWellSized (cast key service rand input p b m).0
  unfolding cast
  cast-IsWellSized p (plain z) m well =
      let votes = vote_loop key rand (pos_part z) (length p.choices) 0 p.votes in
      ground (
        arith,
        generate_keeps (record p { votes = votes }) m,
        length-vote_loop key rand (pos_part z) (length p.choices) 0 p.votes,
      )
  cast-IsWellSized p (weighted z w) m well =
      let votes = add_at key (rand 0) p.votes (pos_part z) (pos_part w) in
      ground (
        arith,
        generate_keeps (record p { votes = votes }) m,
        length-add_at key (rand 0) p.votes (pos_part z) (pos_part w),
      )
  cast-IsWellSized p (ranked zs) m well =
      let votes = rank_loop key rand (length zs) zs 0 p.votes in
      ground (
        arith,
        generate_keeps (record p { votes = votes }) m,
        length-rank_loop key rand (length zs) zs 0 p.votes,
      )
  cast-IsWellSized p (approval zs) m well =
      let votes = approve_loop key rand zs 0 p.votes in
      ground (
        arith,
        generate_keeps (record p { votes = votes }) m,
        length-approve_loop key rand zs 0 p.votes,
      )
