-- ===== src/Poll/Cast.antt =====
-- The four voting methods together: which ballots count, for how much, and what a refusal leaves.
use Prim.Native.String.{String}
use node_ecies_lib.Prelude.{ℕ, ◌≡◌, List, length, ◌==◌, if◌then◌else◌}
use node_ecies_lib.Prelude.Int.{ℤ, pos_part}
use node_ecies_lib.Buffer.{Bytes}
use node_ecies_lib.Paillier.{Paillier}
use node_ecies_lib.Poll.State.{Poll, Outcome, ReceiptService, ReceiptInput}
use node_ecies_lib.Poll.Ballots.{vote, vote_weighted, vote_ranked, vote_approval}
use node_ecies_lib.Poll.Tallies.{names, borda}

-- A call of one of the voting methods, but for the member.
pub data Ballot : Type 0 where
  plain : ℤ → Ballot
  weighted : ℤ → ℤ → Ballot
  ranked : List ℤ → Ballot
  approval : List ℤ → Ballot

-- What a ballot is worth to the choice `k`.
abbrev pub amount : Ballot → ℕ → ℕ
amount (plain z) k = if pos_part z == k then 1 else 0
amount (weighted z w) k = if pos_part z == k then pos_part w else 0
amount (ranked zs) k = borda zs k
amount (approval zs) k = if names zs k then 1 else 0

-- The constructor's condition.
abbrev pub IsWellSized : {C : Type 0} → Poll C → Type 0
IsWellSized p = length p.choices ≡ length p.votes

module _ {C R : Type 0} (key : Paillier C R) (service : ReceiptService) (rand : ℕ → R)
    (input : ReceiptInput) where
  unfoldable pub cast : Poll C → Ballot → String → Poll C × Outcome Bytes
  unfolding vote vote_weighted vote_ranked vote_approval
  cast p (plain z) m = vote key service rand input p z m
  cast p (weighted z w) m = vote_weighted key service rand input p z w m
  cast p (ranked zs) m = vote_ranked key service rand input p zs m
  cast p (approval zs) m = vote_approval key service rand input p zs m
