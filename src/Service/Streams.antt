-- ===== src/Service/Streams.antt =====
-- Streams that are encrypted with the service: `ECIESService` as the `EciesService` of
-- services/chunk-processor.ts and services/encryption-stream.ts.
use node_ecies_lib.Prelude.{
  ℕ, ◌<◌, ◌≤◌, ◌≡◌, sym, ap, ◌∙◌, Bool, none, List, [], length, min, arith,
}
use node_ecies_lib.Prelude.Int.{pos}
use node_ecies_lib.SingleRecipient.{with_length}
use node_ecies_lib.Errors.{Result, ok, value_or}
use node_ecies_lib.Buffer.{Bytes, concat}
use node_ecies_lib.Ecies.{Consts}
use node_ecies_lib.CryptoCore.{Node}
use node_ecies_lib.CryptoCore.Agreement.{IsSecp256k1}
use node_ecies_lib.SingleRecipient.Reading.{IsDocumentedSingle}
use node_ecies_lib.SingleRecipient.Written.{IsAead, IsExchange, IsMessage}
use node_ecies_lib.Service.{
  Draw, compute_encrypted_length, encrypt_with_length, decrypt_with_length_and_header,
}
use node_ecies_lib.Service.Lengths.{encrypt_with_length-length}
use node_ecies_lib.Stream.Chunks.{EciesService, encrypt_stream, decrypt_stream}
use node_ecies_lib.Stream.Sealed.{IsPair}
use node_ecies_lib.Stream.Loops.{datas}
use node_ecies_lib.Stream.RoundTrip.{IsStreamable, decrypt_stream-encrypt_stream}

-- What the service may draw: an ephemeral key that shares a secret with the receiver's, and an IV of
-- its size.
pub record ValidDraw (c : Consts) {S : Type 0} (node : Node S)
    (receiver_private receiver_public : Bytes) : Type 0 where
  pub draw : Draw
  pub ephemeral_public : Bytes
  pub secret : Bytes
  pub exchange :
      IsExchange c node receiver_private receiver_public draw.ephemeral_private_key ephemeral_public
        secret
  pub iv_sized : length draw.iv ≡ c.iv_size

module _ (c : Consts) {S : Type 0} (node : Node S) (ensure_type : ℕ → Result ℕ)
    (receiver_private receiver_public : Bytes) where
  -- Both are called without a preamble.
  abbrev pub ecies_service : EciesService (ValidDraw c node receiver_private receiver_public)
  ecies_service = record {
    encrypt_with_length = λ r key message. encrypt_with_length c node r.draw key message [];
    decrypt_with_length_and_header =
        λ key data_. decrypt_with_length_and_header c node ensure_type key data_ 0 none;
  }

  module _ (doc : IsDocumentedSingle c) (law : IsSecp256k1 node) (aead : IsAead c node)
      (ensured : ensure_type c.type_with_length ≡ ok c.type_with_length) where
    pub allowed :
        (m : Bytes) → 0 < length m → length m ≤ min 0x7fffffff c.max_raw_data_size → IsMessage c m
    allowed m full fits = record { nonempty = full; not_large = omega arith; allowed = omega arith }

    abbrev pub sealing :
        (r : ValidDraw c node receiver_private receiver_public) (m : Bytes)
        → 0 < length m
        → length m ≤ min 0x7fffffff c.max_raw_data_size
        → (e : Bytes) × ((encrypt_with_length c node r.draw receiver_public m [] ≡ ok e)
            × ((compute_encrypted_length c (pos (length m)) with_length none ≡ ok (length e))
                × (decrypt_with_length_and_header c node ensure_type receiver_private e 0 none
                    ≡ ok m)))
    sealing r m full fits =
        encrypt_with_length-length c doc node law aead ensure_type ensured receiver_private
          receiver_public r.ephemeral_public r.secret r.draw r.exchange r.iv_sized m
          (allowed m full fits)

    abbrev pub seal : ValidDraw c node receiver_private receiver_public → Bytes → Bytes
    seal r m = value_or (encrypt_with_length c node r.draw receiver_public m []) []

    pub seal_is :
        (r : ValidDraw c node receiver_private receiver_public) (m e : Bytes)
        → encrypt_with_length c node r.draw receiver_public m [] ≡ ok e
        → seal r m ≡ e
    seal_is r m e h = ap (λ (x : Result Bytes). value_or x []) h

    -- The service encrypts and decrypts every message that is neither empty nor too long.
    abbrev pub ecies_service_pair : IsPair ecies_service receiver_public receiver_private
    ecies_service_pair = record {
      seal = seal;
      limit = min 0x7fffffff c.max_raw_data_size;
      encrypts = λ r m full fits.
          let (e, (made, _)) = sealing r m full fits in made ∙ ap ok (sym (seal_is r m e made));
      decrypts = λ r m full fits.
          let (e, (made, (_, read))) = sealing r m full fits in
          ap
            (λ (b : Bytes).
              decrypt_with_length_and_header c node ensure_type receiver_private b 0 none)
            (seal_is r m e made)
          ∙ read;
    }

    -- Of a streamable source, the stream that is encrypted with the service for a receiver ends
    -- without an error, and the stream that the receiver decrypts of its chunks ends without an
    -- error and makes up the source.
    pub decrypt_stream-encrypt_stream_ecies :
        (rand : ℕ → ValidDraw c node receiver_private receiver_public) (chunk_size : ℕ)
        (checksums : Bool) (source : List Bytes)
        → IsStreamable ecies_service rand ecies_service_pair chunk_size checksums source
        → let y = encrypt_stream ecies_service rand receiver_public chunk_size checksums source in
          let z = decrypt_stream ecies_service receiver_private (datas y.items) in
          (y.error ≡ none) × (z.error ≡ none) × (concat z.items ≡ concat source)
    decrypt_stream-encrypt_stream_ecies rand chunk_size checksums source h =
        decrypt_stream-encrypt_stream ecies_service rand ecies_service_pair chunk_size checksums
          source h
