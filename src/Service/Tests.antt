-- ===== src/Service/Tests.antt =====
-- The theorems on the service, at the stand-ins of the crypto core.
use node_ecies_lib.Prelude.{ℕ, ◌≡◌, refl, inr, none, false, List, [], ◌∷◌, length, replicate, arith}
use node_ecies_lib.Prelude.Int.{pos}
use node_ecies_lib.Errors.{ok}
use node_ecies_lib.Buffer.{Bytes, concat}
use node_ecies_lib.Ecies.Sample.{consts}
use node_ecies_lib.CryptoCore.Sample.{node, node-IsSecp256k1}
use node_ecies_lib.SingleRecipient.{with_length}
use node_ecies_lib.SingleRecipient.Sample.{
  consts-IsDocumentedSingle, node-IsAead, receiver_private, ephemeral_private, exchange, message,
  message-IsMessage,
}
use node_ecies_lib.Service.{
  Draw, compute_encrypted_length, compute_decrypted_length, encrypt_with_length,
  decrypt_with_length_and_header,
}
use node_ecies_lib.Service.Lengths.{
  compute_decrypted_length-compute_encrypted_length, encrypt_with_length-length,
}
use node_ecies_lib.Service.Streams.{
  ValidDraw, ecies_service, ecies_service_pair, decrypt_stream-encrypt_stream_ecies,
}
use node_ecies_lib.Stream.Chunks.{encrypt_stream, decrypt_stream}
use node_ecies_lib.Stream.Loops.{datas}
use node_ecies_lib.Stream.RoundTrip.{IsStreamable}

abbrev receiver_public : Bytes
receiver_public = 2 ∷ receiver_private

abbrev draw : Draw
draw = record { ephemeral_private_key = ephemeral_private; iv = replicate 12 4 }

two_computed : compute_encrypted_length consts (pos 2) with_length none ≡ ok 74
unfolding compute_encrypted_length
two_computed = refl

compute_decrypted_length-compute_encrypted_length_example :
    compute_decrypted_length consts (pos 74) none ≡ ok 2
compute_decrypted_length-compute_encrypted_length_example =
    compute_decrypted_length-compute_encrypted_length consts consts-IsDocumentedSingle 2 none 74
      two_computed

encrypt_with_length-length_example :
    (e : Bytes) × ((encrypt_with_length consts node draw receiver_public message [] ≡ ok e)
      × ((compute_encrypted_length consts (pos 2) with_length none ≡ ok (length e))
          × (decrypt_with_length_and_header consts node ok receiver_private e 0 none ≡ ok message)))
encrypt_with_length-length_example =
    encrypt_with_length-length consts consts-IsDocumentedSingle node node-IsSecp256k1 node-IsAead ok
      refl receiver_private receiver_public (2 ∷ ephemeral_private) (7 ∷ []) draw exchange refl
      message message-IsMessage

abbrev rand : ℕ → ValidDraw consts node receiver_private receiver_public
rand i = record {
  draw = draw;
  ephemeral_public = 2 ∷ ephemeral_private;
  secret = 7 ∷ [];
  exchange = exchange;
  iv_sized = refl;
}

abbrev source : List Bytes
source = (1 ∷ 2 ∷ 3 ∷ []) ∷ (4 ∷ 5 ∷ []) ∷ []

abbrev ServiceStreamable : Type 0
ServiceStreamable =
    IsStreamable (ecies_service consts node ok receiver_private receiver_public) rand
      (ecies_service_pair consts node ok receiver_private receiver_public consts-IsDocumentedSingle
        node-IsSecp256k1 node-IsAead refl)
      2 false source

source_streamable : ServiceStreamable
source_streamable = record {
  public_key_fits = inr refl;
  private_key_fits = refl;
  items_fit = (omega arith, (omega arith, tt));
  size_pos = omega arith;
  size_fits = omega arith;
  countable = omega arith;
}

decrypt_stream-encrypt_stream_ecies_example :
    let service = ecies_service consts node ok receiver_private receiver_public in
    let y = encrypt_stream service rand receiver_public 2 false source in
    let z = decrypt_stream service receiver_private (datas y.items) in
    (y.error ≡ none) × (z.error ≡ none) × (concat z.items ≡ concat source)
decrypt_stream-encrypt_stream_ecies_example =
    decrypt_stream-encrypt_stream_ecies consts node ok receiver_private receiver_public
      consts-IsDocumentedSingle node-IsSecp256k1 node-IsAead refl rand 2 false source
      source_streamable
