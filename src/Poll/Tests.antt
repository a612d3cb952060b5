-- ===== src/Poll/Tests.antt =====
-- The theorems on polls at an election of two choices. The key is one whose ciphertexts are the
-- numbers that they encrypt.
use Prim.Native.String.{String}
use node_ecies_lib.Prelude.{
  ℕ, ◌+◌, ◌%◌, ◌<◌, ◌≡◌, ◌≢◌, refl, sym, true, false, none, some, List, [], ◌∷◌, ◌++◌, length,
  replicate, All, arith, ◌↔◌, get_elem?,
}
use node_ecies_lib.Prelude.Int.{pos}
use node_ecies_lib.Errors.{ok, err, crypto_error}
use node_ecies_lib.Buffer.{Bytes}
use node_ecies_lib.Paillier.{Paillier, IsHomomorphic}
use node_ecies_lib.Poll.State.{
  Poll, done, threw, already_voted, receipt_failed, ReceiptService, ReceiptInput, new_poll,
  get_voter_count, member_voted, generate_encrypted_receipt, encrypted_receipt, verify_receipt,
  lookup,
}
use node_ecies_lib.Poll.Ballots.{check_choices, out_of_range}
use node_ecies_lib.Poll.Tallies.{tally}
use node_ecies_lib.Poll.Cast.{plain, weighted, ranked, amount, cast}
use node_ecies_lib.Poll.Storing.{cast-throws}
use node_ecies_lib.Poll.Counting.{cast-tally, cast_receipt_failed}
use node_ecies_lib.Poll.Election.{
  Call, AreDistinct, members, total_amount, run, accepted, HasReceipt,
}
use node_ecies_lib.Poll.History.{election}
use node_ecies_lib.Poll.Results.{get_results, get_total_votes, has_tie, leading_index, value_at}
use node_ecies_lib.Poll.Leading.{IsFirstMax, get_results-winner, has_tie-leading}
use node_ecies_lib.Poll.Totals.{get_total_votes-get_results}
use node_ecies_lib.Poll.Receipts.{IsCorrect, verify_receipt-cast, verify_receipt_other}

abbrev key : Paillier ℕ ℕ
key = record {
  modulus = 1000;
  encrypt = λ r m. m % 1000;
  addition = λ a b. (a + b) % 1000;
  decrypt = λ a. a % 1000;
}

key-IsHomomorphic : IsHomomorphic key
key-IsHomomorphic = record {
  modulus_pos = omega arith;
  decrypt-encrypt = λ r m. omega arith;
  decrypt-addition = λ a b. omega arith;
  decrypt-lt = λ a. omega arith;
}

abbrev rand : ℕ → ℕ
rand i = i

-- Signatures are one byte, and encryption is none.
abbrev service : ReceiptService
service = record {
  sha256 = λ s. replicate 32 0;
  sign = λ h. ok (1 ∷ []);
  verify = λ h s. true;
  encrypt = λ b. ok b;
  decrypt = λ b. ok b;
}

abbrev failing_service : ReceiptService
failing_service = record service { sign = λ h. err crypto_error }

service-IsCorrect : IsCorrect service
service-IsCorrect = record {
  hash_size = λ s. refl;
  verify-sign = λ h s signed. refl;
  decrypt-encrypt = λ b e same. sym same;
}

abbrev input : ReceiptInput
input = record { now = "1700000000000"; nonce = "00" }

abbrev fresh : Poll ℕ
fresh = record {
  choices = "red" ∷ "blue" ∷ [];
  votes = 0 ∷ 0 ∷ [];
  receipts = [];
  created_at = 0;
  closed_at = none;
}

abbrev receipt : Bytes
receipt = replicate 32 0 ++ (1 ∷ [])

abbrev voted : Poll ℕ
voted = record fresh { votes = 2 ∷ 1 ∷ []; receipts = ("ann", receipt) ∷ [] }

abbrev calls : List (Call ℕ)
calls =
    record { ballot = plain (pos 0); member = "ann"; rand = rand; input = input }
    ∷ record { ballot = ranked (pos 1 ∷ pos 0 ∷ []); member = "bob"; rand = rand; input = input }
    ∷ record { ballot = plain (pos 1); member = "ann"; rand = rand; input = input }
    ∷ []

fresh-made : new_poll key rand ("red" ∷ "blue" ∷ []) 0 ≡ done fresh
unfolding new_poll
fresh-made = refl

receipt_encrypted : encrypted_receipt service input "ann" ≡ ok receipt
unfolding encrypted_receipt
receipt_encrypted = refl

ballot_refused :
    (cast key service rand input voted (weighted (pos 0) (pos 5)) "ann").1 ≡ threw already_voted
unfolding cast
ballot_refused = refl

no_receipt : lookup "bob" voted.receipts ≢ some receipt
unfolding lookup
no_receipt e = cc

calls-HaveReceipts : All (HasReceipt key service) calls
unfolding encrypted_receipt
calls-HaveReceipts = ((receipt, refl), ((receipt, refl), ((receipt, refl), tt)))

election_example :
    ((k : ℕ)
      → tally key (run key service fresh calls).votes k
        ≡ total_amount (accepted key service fresh calls) k % 1000)
    × (get_voter_count (run key service fresh calls) ≡ length (accepted key service fresh calls))
    × AreDistinct (members (accepted key service fresh calls))
election_example =
    election key service key-IsHomomorphic rand ("red" ∷ "blue" ∷ []) 0 fresh fresh-made calls
      calls-HaveReceipts

ballot_done :
    (cast key service rand input fresh (ranked (pos 0 ∷ pos 1 ∷ [])) "ann").1 ≡ done receipt
unfolding cast check_choices generate_encrypted_receipt
ballot_done = refl

cast-tally_example :
    tally key (cast key service rand input fresh (ranked (pos 0 ∷ pos 1 ∷ [])) "ann").0.votes 1
    ≡ (tally key fresh.votes 1 + amount (ranked (pos 0 ∷ pos 1 ∷ [])) 1) % 1000
cast-tally_example =
    cast-tally key service rand input key-IsHomomorphic fresh (ranked (pos 0 ∷ pos 1 ∷ [])) "ann"
      receipt refl ballot_done 1

ballot_failed :
    (cast key failing_service rand input fresh (plain (pos 1)) "ann").1
    ≡ threw (receipt_failed crypto_error)
unfolding cast out_of_range generate_encrypted_receipt
ballot_failed = refl

cast_receipt_failed_example :
    ((k : ℕ)
      → tally key (cast key failing_service rand input fresh (plain (pos 1)) "ann").0.votes k
        ≡ (tally key fresh.votes k + amount (plain (pos 1)) k) % 1000)
    × (member_voted (cast key failing_service rand input fresh (plain (pos 1)) "ann").0 "ann"
        ≡ false)
cast_receipt_failed_example =
    cast_receipt_failed key failing_service rand input key-IsHomomorphic fresh (plain (pos 1)) "ann"
      crypto_error refl ballot_failed

cast-throws_example : (cast key service rand input voted (weighted (pos 0) (pos 5)) "ann").0 ≡ voted
cast-throws_example =
    cast-throws key service rand input voted (weighted (pos 0) (pos 5)) "ann" receipt already_voted
      receipt_encrypted ballot_refused

verify_receipt-cast_example :
    verify_receipt service
      (cast key service rand input fresh (ranked (pos 0 ∷ pos 1 ∷ [])) "ann").0
      "ann"
      receipt
    ≡ done true
verify_receipt-cast_example =
    verify_receipt-cast key service rand input fresh (ranked (pos 0 ∷ pos 1 ∷ [])) "ann" receipt
      service-IsCorrect ballot_done

verify_receipt_other_example : verify_receipt service voted "bob" receipt ≡ done false
verify_receipt_other_example = verify_receipt_other service voted "bob" receipt no_receipt

get_results-winner_example :
    IsFirstMax (get_results key voted).tallies 2 (get_results key voted).winner_index
    × ((x : String) × (get_elem? voted.choices (get_results key voted).winner_index ≡ some x)
        × ((get_results key voted).winner_name ≡ some x))
get_results-winner_example = get_results-winner key voted refl (omega arith)

has_tie-leading_example : (has_tie (3 ∷ 5 ∷ 5 ∷ []) ≡ false) ↔ (
    (j : ℕ)
    → j < 3
    → j ≢ leading_index (3 ∷ 5 ∷ 5 ∷ [])
    → value_at (3 ∷ 5 ∷ 5 ∷ []) j < value_at (3 ∷ 5 ∷ 5 ∷ []) (leading_index (3 ∷ 5 ∷ 5 ∷ [])))
has_tie-leading_example = has_tie-leading (3 ∷ 5 ∷ 5 ∷ []) (omega arith)

get_total_votes-get_results_example :
    get_total_votes key 7 voted ≡ (get_results key voted).total_votes % 1000
get_total_votes-get_results_example = get_total_votes-get_results key key-IsHomomorphic 7 voted
