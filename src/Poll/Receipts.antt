-- ===== src/Poll/Receipts.antt =====
-- Which receipts a poll verifies.
use Prim.Native.String.{String, ◌++◌ as ◌<>◌}
use text.Mathlib.TextEquality.{eq_iff}
use node_ecies_lib.Prelude.{
  ℕ, ◌≡◌, ◌≢◌, refl, ap, ◌∙◌, true, false, some, List, [], ◌∷◌, ◌++◌, length, arith, inl, inr,
  take-append, drop-append, Option-cases,
}
use node_ecies_lib.Errors.{ok, Result-cases}
use node_ecies_lib.Buffer.{Bytes, subarray, subarray_from}
use node_ecies_lib.Buffer.Laws.{equals_refl, equals→eq}
use node_ecies_lib.Paillier.{Paillier}
use node_ecies_lib.Poll.State.{
  Poll, done, ReceiptService, ReceiptInput, lookup, insert, receipt_of, encrypted_receipt,
  verify_receipt,
}
use node_ecies_lib.Poll.Cast.{Ballot, cast}
use node_ecies_lib.Poll.Storing.{cast-stores, cast-encrypts}

-- What the receipt's services are documented to do: SHA-256 has 32 bytes, a signature verifies, and
-- decryption undoes encryption.
pub record IsCorrect (service : ReceiptService) : Type 0 where
  pub hash_size : (s : String) → length (service.sha256 s) ≡ 32
  pub verify-sign : (h s : Bytes) → service.sign h ≡ ok s → service.verify h s ≡ true
  pub decrypt-encrypt : (b e : Bytes) → service.encrypt b ≡ ok e → service.decrypt e ≡ ok b

pub lookup-insert :
    (k : String) (v : Bytes) (m : List (String × Bytes)) → lookup k (insert k v m) ≡ some v
unfolding lookup insert
lookup-insert k v [] = ground (arith, eq_iff k k)
lookup-insert k v ((j, w) ∷ m) = ground (arith, eq_iff k k, lookup-insert k v m)

-- An encrypted receipt is the encryption of a hash and its signature.
encrypted_receipt_inv :
    (service : ReceiptService) (input : ReceiptInput) (m : String) (r : Bytes)
    → encrypted_receipt service input m ≡ ok r
    → let hash = service.sha256 (input.now <> ("-" <> (input.nonce <> ("-" <> m)))) in
      (signature : Bytes) × (service.sign hash ≡ ok signature)
      × (service.encrypt (hash ++ signature) ≡ ok r)
unfolding encrypted_receipt receipt_of
encrypted_receipt_inv service input m r e =
    let hash = service.sha256 (input.now <> ("-" <> (input.nonce <> ("-" <> m)))) in
    elim (Result-cases (service.sign hash)) [
      | inl (signature, signed) ↦ (signature, signed, ground (arith))
      | inr (x, failed) ↦ absurd (ground (arith))
    ]

module _ {C R : Type 0} (key : Paillier C R) (service : ReceiptService) (rand : ℕ → R)
    (input : ReceiptInput) where
  -- The receipt that a voting method returns is one that the poll it leaves verifies as its member's.
  pub verify_receipt-cast :
      (p : Poll C) (b : Ballot) (m : String) (r : Bytes)
      → IsCorrect service
      → (cast key service rand input p b m).1 ≡ done r
      → verify_receipt service (cast key service rand input p b m).0 m r ≡ done true
  unfolding verify_receipt subarray subarray_from
  verify_receipt-cast p b m r right e =
      let (stored, _) = cast-stores key service rand input p b m r e in
      let text = input.now <> ("-" <> (input.nonce <> ("-" <> m))) in
      let hash = service.sha256 text in
      let (signature, signed, sealed) =
        encrypted_receipt_inv service input m r (cast-encrypts key service rand input p b m r e) in
      let found : lookup m (cast key service rand input p b m).0.receipts ≡ some r =
        ap (lookup m) stored ∙ lookup-insert m r p.receipts in
      rw
        (
          found,
          verify_receipt,
          equals_refl r,
          right.decrypt-encrypt (hash ++ signature) r sealed,
          take-append hash signature 32 (right.hash_size text),
          drop-append hash signature 32 (right.hash_size text),
          right.verify-sign hash signature signed,
        )
        refl

module _ {C : Type 0} (service : ReceiptService) where
  -- Whatever is not the receipt that the poll stores of the member is not verified.
  pub verify_receipt_other :
      (p : Poll C) (m : String) (r : Bytes)
      → lookup m p.receipts ≢ some r
      → verify_receipt service p m r ≡ done false
  unfolding verify_receipt
  verify_receipt_other p m r other = elim (Option-cases (lookup m p.receipts)) [
    | inl e ↦ rw (e, verify_receipt) refl
    | inr (found, e) ↦ ground (arith, e, equals→eq found r)
  ]
