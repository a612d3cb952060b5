-- ===== src/Poll/EciesReceipts.antt =====
-- The ECIES service as the `ReceiptService` of a poll, with the poll's key pair. What encryption draws
-- at random is fixed.
use Prim.Native.String.{String, ◌++◌ as ◌<>◌}
use node_ecies_lib.Prelude.{ℕ, ◌≤◌, ◌≡◌, ap, ◌∙◌, none, [], ◌++◌, length, length-append, min, arith}
use node_ecies_lib.Errors.{Result, ok, ◌>>=◌}
use node_ecies_lib.Buffer.{Bytes}
use node_ecies_lib.Ecies.{Consts}
use node_ecies_lib.CryptoCore.{Node, sign, verify}
use node_ecies_lib.CryptoCore.Agreement.{IsSecp256k1, IsEcdsa, verify-sign}
use node_ecies_lib.SingleRecipient.{encrypt}
use node_ecies_lib.SingleRecipient.Reading.{IsDocumentedSingle}
use node_ecies_lib.SingleRecipient.Written.{IsAead, IsMessage}
use node_ecies_lib.Service.{encrypt_with_length, decrypt_with_length_and_header}
use node_ecies_lib.Service.Lengths.{encrypt_with_length-length}
use node_ecies_lib.Service.Streams.{ValidDraw}
use node_ecies_lib.Poll.State.{ReceiptService, ReceiptInput, receipt_of, encrypted_receipt}
use node_ecies_lib.Poll.Receipts.{IsCorrect}

module _ (c : Consts) {S : Type 0} (node : Node S) (ensure_type : ℕ → Result ℕ)
    (private_key public_key : Bytes) (r : ValidDraw c node private_key public_key)
    (hash : String → Bytes) where
  abbrev pub ecies_receipts : ReceiptService
  ecies_receipts = record {
    sha256 = hash;
    sign = sign c node private_key;
    verify = verify c node public_key;
    encrypt = λ b. encrypt_with_length c node r.draw public_key b [];
    decrypt = λ e. decrypt_with_length_and_header c node ensure_type private_key e 0 none;
  }

  encrypted-IsMessage :
      (b e : Bytes) → encrypt_with_length c node r.draw public_key b [] ≡ ok e → IsMessage c b
  unfolding encrypt_with_length encrypt
  encrypted-IsMessage b e h = record {
    nonempty = ground arith;
    not_large = ground arith;
    allowed = ground arith;
  }

  module _ (doc : IsDocumentedSingle c) (law : IsSecp256k1 node) (ecdsa : IsEcdsa node)
      (aead : IsAead c node) (ensured : ensure_type c.type_with_length ≡ ok c.type_with_length)
      (hash_size : (s : String) → length (hash s) ≡ 32) where
    pub ecies_receipts-IsCorrect : IsCorrect ecies_receipts
    ecies_receipts-IsCorrect = record {
      hash_size = hash_size;
      verify-sign = λ h s signed.
          verify-sign c node ecdsa private_key public_key h s r.exchange.receiver signed;
      decrypt-encrypt = λ b e h.
          let (f, (made, (_, read))) =
            encrypt_with_length-length c doc node law aead ensure_type ensured private_key
              public_key r.ephemeral_public r.secret r.draw r.exchange r.iv_sized b
              (encrypted-IsMessage b e h) in
          cc;
    }

    -- Every receipt can be made where the poll's key signs with 64 bytes and 96 bytes are allowed.
    pub ecies_receipts-HaveReceipts :
        ((h : Bytes) → (s : Bytes) × (sign c node private_key h ≡ ok s) × (length s ≡ 64))
        → 96 ≤ min 0x7fffffff c.max_raw_data_size
        → (input : ReceiptInput) (member : String)
        → (e : Bytes) × (encrypted_receipt ecies_receipts input member ≡ ok e)
    unfolding encrypted_receipt receipt_of
    ecies_receipts-HaveReceipts signs fits input member =
        let text = input.now <> ("-" <> (input.nonce <> ("-" <> member))) in
        let (s, signed, sized) = signs (hash text) in
        let receipt = hash text ++ s in
        let total : length receipt ≡ 96 =
          omega (arith, length-append (hash text) s, hash_size text, sized) in
        let (e, (made, _)) =
          encrypt_with_length-length c doc node law aead ensure_type ensured private_key public_key
            r.ephemeral_public r.secret r.draw r.exchange r.iv_sized receipt
            (record {
              nonempty = omega (arith, total);
              not_large = omega (arith, total, fits);
              allowed = omega (arith, total, fits);
            }) in
        (
          e,
          ap
                (λ (x : Result Bytes). (x >>= λ signature. ok (hash text ++ signature)) >>= λ b.
                  encrypt_with_length c node r.draw public_key b [])
                signed
              ∙ made,
        )
