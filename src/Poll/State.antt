-- ===== src/Poll/State.antt =====
-- The fields of a VotingPoll, its constructor and `newPoll`, its receipts, and `close`.
-- A member is the text of its serialized ID. Signing, hashing and ECIES encryption of a receipt are
-- those of the services that the poll is given, behind the interface `ReceiptService`.
use Prim.Native.String.{String, ◌++◌ as ◌<>◌}
use text.Mathlib.Text.{◌==◌ as str_eq}
use node_ecies_lib.Prelude.{
  ℕ, zero, suc, Bool, true, false, not, Option, none, some, List, [], ◌∷◌, ◌++◌, length, ◌==◌,
  if◌then◌else◌,
}
use node_ecies_lib.Prelude.Int.{ℤ, sub_ℕ}
use node_ecies_lib.Errors.{Result, ok, err, Error, ◌>>=◌}
use node_ecies_lib.Buffer.{Bytes, equals, subarray, subarray_from}
use node_ecies_lib.Paillier.{Paillier}

pub data PollError : Type 0 where
  no_choices : PollError
  votes_mismatch : PollError
  poll_closed : PollError
  already_voted : PollError
  invalid_choice : PollError
  weight_not_positive : PollError
  no_ranked_choice : PollError
  duplicate_choice : PollError
  no_approved_choice : PollError
  already_closed : PollError
  receipt_failed : Error → PollError

pub data Outcome {ℓ} (A : Type ℓ) : Type ℓ where
  done : A → Outcome A
  threw : PollError → Outcome A

-- What `generateEncryptedReceipt` and `verifyReceipt` call, with the poll's key pair.
pub record ReceiptService : Type 0 where
  pub sha256 : String → Bytes
  pub sign : Bytes → Result Bytes
  pub verify : Bytes → Bytes → Bool
  pub encrypt : Bytes → Result Bytes
  pub decrypt : Bytes → Result Bytes

-- The time and the nonce that a receipt takes, as texts.
pub record ReceiptInput : Type 0 where
  pub now : String
  pub nonce : String

pub record Poll (C : Type 0) : Type 0 where
  pub choices : List String
  pub votes : List C
  pub receipts : List (String × Bytes)
  pub created_at : ℕ
  pub closed_at : Option ℕ

-- Map.get and Map.set: a new key goes to the end, an old one keeps its place.
unfoldable pub lookup : String → List (String × Bytes) → Option Bytes
lookup k [] = none
lookup k ((j, v) ∷ m) = if str_eq j k then some v else lookup k m

unfoldable pub insert : String → Bytes → List (String × Bytes) → List (String × Bytes)
insert k v [] = (k, v) ∷ []
insert k v ((j, w) ∷ m) = if str_eq j k then (k, v) ∷ m else (j, w) ∷ insert k v m

abbrev pub is_some {ℓ} : {A : Type ℓ} → Option A → Bool
is_some none = false
is_some (some a) = true

module _ (service : ReceiptService) where
  -- hash || signature of `${Date.now()}-${randomNonce}-${memberId}`
  unfoldable pub receipt_of : ReceiptInput → String → Result Bytes
  receipt_of input member =
      let hash = service.sha256 (input.now <> ("-" <> (input.nonce <> ("-" <> member)))) in
      service.sign hash >>= λ signature. ok (hash ++ signature)

  -- Signing and encryption may both throw.
  unfoldable pub encrypted_receipt : ReceiptInput → String → Result Bytes
  unfolding receipt_of
  encrypted_receipt input member = receipt_of input member >>= service.encrypt

  abbrev check_signature : Result Bytes → Outcome Bool
  check_signature (ok decrypted) =
      done (service.verify (subarray decrypted 0 32) (subarray_from decrypted 32))
  check_signature (err e) = threw (receipt_failed e)

module _ {C : Type 0} where
  -- new VotingPoll(...), at the time `now`
  unfoldable pub construct : List String → List C → ℕ → Outcome (Poll C)
  construct choices votes now =
      if length choices == 0
      then threw no_choices
      else if not (length choices == length votes)
      then threw votes_mismatch
      else done (record {
        choices = choices;
        votes = votes;
        receipts = [];
        created_at = now;
        closed_at = none;
      })

  unfoldable pub is_closed : Poll C → Bool
  is_closed p = is_some p.closed_at

  unfoldable pub member_voted : Poll C → String → Bool
  unfolding lookup
  member_voted p member = is_some (lookup member p.receipts)

  unfoldable pub close : Poll C → ℕ → Poll C × Outcome (Unit {0})
  unfolding is_closed
  close p now =
      if is_closed p
      then (p, threw already_closed)
      else (record p { closed_at = some now }, done tt)

  -- A difference of times, which may be negative.
  unfoldable pub duration_ms : Poll C → Option ℤ
  duration_ms p = elim p.closed_at [ none ↦ none | some t ↦ some (sub_ℕ t p.created_at) ]

  unfoldable pub get_voter_count : Poll C → ℕ
  get_voter_count p = length p.receipts

  module _ (service : ReceiptService) where
    -- The receipt is stored only behind what may throw.
    unfoldable pub generate_encrypted_receipt :
        Poll C → ReceiptInput → String → Poll C × Outcome Bytes
    unfolding encrypted_receipt insert
    generate_encrypted_receipt p input member = elim (encrypted_receipt service input member) [
      | ok encrypted ↦ (record p { receipts = insert member encrypted p.receipts }, done encrypted)
      | err e ↦ (p, threw (receipt_failed e))
    ]

    unfoldable pub verify_receipt : Poll C → String → Bytes → Outcome Bool
    unfolding lookup equals subarray subarray_from
    verify_receipt p member encrypted = elim (lookup member p.receipts) [
      | none ↦ done false
      | some found ↦
          if equals found encrypted
          then check_signature service (service.decrypt encrypted)
          else done false
    ]

module _ {C R : Type 0} (key : Paillier C R) where
  -- The loop of `newPoll`: an encryption of 0 for each choice.
  unfoldable pub zero_votes : (ℕ → R) → ℕ → ℕ → List C
  zero_votes rand zero i = []
  zero_votes rand (suc left) i = key.encrypt (rand i) 0 ∷ zero_votes rand left (suc i)

  unfoldable pub new_poll : (ℕ → R) → List String → ℕ → Outcome (Poll C)
  unfolding zero_votes construct
  new_poll rand choices now = construct choices (zero_votes rand (length choices) 0) now
