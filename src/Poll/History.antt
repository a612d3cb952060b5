-- ===== src/Poll/History.antt =====
-- Elections: a poll made by `newPoll` and the ballots cast in it.
use Prim.Native.String.{String}
use node_ecies_lib.Prelude.{
  ℕ, zero, suc, ◌+◌, ◌%◌, ◌≡◌, refl, sym, ap, ◌∙◌, none, inl, inr, ◌⊎◌, List, [], ◌∷◌, ◌++◌, length,
  All, arith, subst,
}
use native.Mathlib.Nat.{mod-eq_of_lt}
use node_ecies_lib.Buffer.{Bytes}
use node_ecies_lib.Paillier.{Paillier, IsHomomorphic}
use node_ecies_lib.Poll.State.{
  Poll, Outcome, done, threw, ReceiptService, new_poll, zero_votes, construct, get_voter_count,
  no_choices,
}
use node_ecies_lib.Poll.Tallies.{tally}
use node_ecies_lib.Poll.Cast.{Ballot, IsWellSized}
use node_ecies_lib.Poll.Election.{
  Call, AreDistinct, AreDistinct-append, voters, members, total_amount, step, run, accepted,
  HasReceipt, run-voters, run-tally, Outcome-cases, step-threw, step-voters, step-fresh,
}

abbrev outcome_or {ℓ} : {A : Type ℓ} → Outcome A → A → A
outcome_or (done a) b = a
outcome_or (threw e) b = b

voters-length : (rs : List (String × Bytes)) → length (voters rs) ≡ length rs
voters-length [] = refl
voters-length ((m, r) ∷ rs) = ap suc (voters-length rs)

members-length : (rs : List (String × Ballot)) → length (members rs) ≡ length rs
members-length [] = refl
members-length ((m, r) ∷ rs) = ap suc (members-length rs)

module _ {C R : Type 0} (key : Paillier C R) (rand : ℕ → R) where
  length-zero_votes : (n i : ℕ) → length (zero_votes key rand n i) ≡ n
  unfolding zero_votes
  length-zero_votes zero i = refl
  length-zero_votes (suc n) i = ap suc (length-zero_votes n (suc i))

  tally-zero_votes : IsHomomorphic key → (n i k : ℕ) → tally key (zero_votes key rand n i) k ≡ 0
  unfolding zero_votes tally
  tally-zero_votes law zero i k = refl
  tally-zero_votes law (suc n) i zero =
      law.decrypt-encrypt (rand i) 0 ∙ mod-eq_of_lt law.modulus_pos
  tally-zero_votes law (suc n) i (suc k) = tally-zero_votes law n (suc i) k

  -- A new poll is refused without choices, and otherwise has one vote for each choice, an
  -- encryption of nothing, no receipts, and is open.
  pub new_poll_lem :
      IsHomomorphic key
      → (choices : List String) (now : ℕ)
      → ((choices ≡ []) × (new_poll key rand choices now ≡ threw no_choices))
        ⊎ ((p : Poll C) × (new_poll key rand choices now ≡ done p)
            × (p.choices ≡ choices)
            × (p.receipts ≡ [])
            × (p.closed_at ≡ none)
            × IsWellSized p
            × ((k : ℕ) → tally key p.votes k ≡ 0))
  unfolding new_poll construct
  new_poll_lem law [] now = inl (refl, refl)
  new_poll_lem law (x ∷ xs) now =
      let votes = zero_votes key rand (length (x ∷ xs)) 0 in
      inr (
        record {
          choices = x ∷ xs;
          votes = votes;
          receipts = [];
          created_at = now;
          closed_at = none;
        },
        ground (arith, length-zero_votes (length (x ∷ xs)) 0),
        refl,
        refl,
        refl,
        sym (length-zero_votes (length (x ∷ xs)) 0),
        λ k. tally-zero_votes law (length (x ∷ xs)) 0 k,
      )

  new_poll-fresh :
      IsHomomorphic key
      → (choices : List String) (now : ℕ) (p : Poll C) → new_poll key rand choices now ≡ done p
      → (p.receipts ≡ []) × IsWellSized p × ((k : ℕ) → tally key p.votes k ≡ 0)
  new_poll-fresh law choices now p e = elim (new_poll_lem law choices now) [
    | inl (none_, refused) ↦ absurd (cc)
    | inr (q, made, _, receipts, _, well, zeros) ↦
        subst
          (λ (q : Poll C). (q.receipts ≡ []) × IsWellSized q × ((k : ℕ) → tally key q.votes k ≡ 0))
          (ap (λ (o : Outcome (Poll C)). outcome_or o q) (sym made ∙ e)) (receipts, well, zeros)
  ]

module _ {C R : Type 0} (key : Paillier C R) (service : ReceiptService) where
  pub run-AreDistinct :
      (p : Poll C) (cs : List (Call R))
      → All (HasReceipt key service) cs
      → AreDistinct (voters p.receipts)
      → AreDistinct (voters (run key service p cs).receipts)
  unfolding run
  run-AreDistinct p [] works d = d
  run-AreDistinct p (c ∷ cs) (works, later) d = elim (Outcome-cases (step key service p c).1) [
    | inl (r, e) ↦ run-AreDistinct (step key service p c).0 cs later (
        rw (step-voters key service p c r e)
          (AreDistinct-append c.member (voters p.receipts) d (step-fresh key service p c r e)))
    | inr (x, e) ↦ run-AreDistinct (step key service p c).0 cs later (
        subst (λ (q : Poll C). AreDistinct (voters q.receipts))
          (sym (step-threw key service p c x works e)) d)
  ]

  -- The result of an election: whatever calls of the four voting methods are made of a new poll,
  -- where the receipt of each call can be signed and encrypted, each tally is the sum of what the accepted ballots are
  -- worth to the choice, modulo n; there are as many voters as accepted ballots; and the accepted
  -- ballots are of different members.
  pub election :
      (law : IsHomomorphic key) (rand : ℕ → R) (choices : List String) (now : ℕ) (p : Poll C)
      → new_poll key rand choices now ≡ done p
      → (cs : List (Call R)) → All (HasReceipt key service) cs
      → ((k : ℕ)
          → tally key (run key service p cs).votes k
            ≡ total_amount (accepted key service p cs) k % key.modulus)
        × (get_voter_count (run key service p cs) ≡ length (accepted key service p cs))
        × AreDistinct (members (accepted key service p cs))
  unfolding get_voter_count
  election law rand choices now p e cs works =
      let (receipts, well, zeros) = new_poll-fresh key rand law choices now p e in
      let all_voters : voters (run key service p cs).receipts
          ≡ members (accepted key service p cs) =
        run-voters key service p cs works
        ∙ ap (λ (rs : List (String × Bytes)). voters rs ++ members (accepted key service p cs))
            receipts in
      (
        λ k.
            run-tally key service law p cs works k well
            ∙ ap (λ (t : ℕ). (t + total_amount (accepted key service p cs) k) % key.modulus)
                (zeros k)
            ∙ ap (λ (t : ℕ). t % key.modulus) {x = 0 + total_amount (accepted key service p cs) k}
                (omega arith),
        sym (voters-length (run key service p cs).receipts)
            ∙ ap length all_voters
            ∙ members-length (accepted key service p cs),
        subst AreDistinct all_voters (
            run-AreDistinct p cs works
              (subst (λ (rs : List (String × Bytes)). AreDistinct (voters rs)) (sym receipts) tt)),
      )
