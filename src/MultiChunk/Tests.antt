-- ===== src/MultiChunk/Tests.antt =====
-- The theorems on chunks for several recipients, at a chunk for two of them.
use node_ecies_lib.Prelude.{
  ◌≡◌, refl, true, false, none, some, List, [], ◌∷◌, ◌++◌, replicate, All, arith,
}
use node_ecies_lib.Errors.{ok, err, recipient_not_found}
use node_ecies_lib.Buffer.{Bytes, equals}
use node_ecies_lib.Ecies.Sample.{consts}
use node_ecies_lib.CryptoCore.{all_zero, get_public_key, sign}
use node_ecies_lib.CryptoCore.Sample.{node, node-IsEcdsa, sample_public_key}
use node_ecies_lib.MultiRecipient.Keys.{Crypto, IsGcm, DoAgree}
use node_ecies_lib.Stream.Multiple.{Recipient}
use node_ecies_lib.MultiChunk.{ChunkDraw, MultiRecipientChunk, prefixed_key, encrypt_chunk}
use node_ecies_lib.MultiChunk.Decrypt.{decrypt_chunk}
use node_ecies_lib.MultiChunk.Sealed.{IsDocumentedChunk, CanReceive, IsChunkable}
use node_ecies_lib.MultiChunk.Lookup.{is_recipient}
use node_ecies_lib.MultiChunk.RoundTrip.{decrypt_chunk-encrypt_chunk}
use node_ecies_lib.MultiChunk.Senders.{decrypt_chunk-not_found, decrypt_chunk-encrypt_chunk_signed}

abbrev crypto : Crypto
crypto = record {
  normalize_public_key = λ k. ok k;
  derive_shared_key = λ s. s;
  compute_secret = λ a b. ok (7 ∷ []);
  cipher = λ k iv aad m. (m, replicate 16 0);
  decipher = λ k iv tag aad e. ok e;
}

crypto-IsGcm : IsGcm consts crypto
crypto-IsGcm = record {
  decipher-cipher = λ key iv aad m. refl;
  cipher_size = λ key iv aad m. refl;
  tag_size = λ key iv aad m. refl;
  sizes = refl;
}

consts-IsDocumentedChunk : IsDocumentedChunk consts
consts-IsDocumentedChunk = record { iv_twelve = refl; tag_sixteen = refl; key_fits = omega arith }

abbrev ephemeral : Bytes
ephemeral = replicate 33 2

abbrev draw : ChunkDraw
draw = record {
  ephemeral_private = replicate 32 8;
  ephemeral_public = ephemeral;
  key_ivs = λ i. replicate 12 i;
  iv = replicate 12 4;
}

abbrev alice : Recipient
alice = record { id = replicate 12 1; public_key = replicate 33 3 }

abbrev bob : Recipient
bob = record { id = replicate 12 2; public_key = replicate 33 2 }

abbrev recipients : List Recipient
recipients = alice ∷ bob ∷ []

abbrev symmetric_key : Bytes
symmetric_key = replicate 32 6

receive : All (CanReceive consts crypto (replicate 32 8)) recipients
receive = (
  record {
    id_sized = refl;
    normalized = replicate 33 3;
    secret = 7 ∷ [];
    normalizes = refl;
    agrees = refl;
  },
  (
    record {
      id_sized = refl;
      normalized = replicate 33 2;
      secret = 7 ∷ [];
      normalizes = refl;
      agrees = refl;
    },
    tt,
  ),
)

agree :
    (public_key : Bytes)
    → DoAgree crypto (replicate 32 9) public_key (replicate 32 8) ephemeral (7 ∷ [])
agree public_key = record {
  receiver_normalized = public_key;
  ephemeral_normalized = ephemeral;
  normalizes_receiver = refl;
  normalizes_ephemeral = refl;
  here = refl;
  there = refl;
}

alice_listed : is_recipient (replicate 12 1) recipients ≡ true
unfolding equals
alice_listed = refl

bob_listed : is_recipient (replicate 12 2) recipients ≡ true
unfolding equals
bob_listed = refl

carol_unlisted : is_recipient (replicate 12 3) recipients ≡ false
unfolding equals
carol_unlisted = refl

chunkable : IsChunkable consts draw ephemeral (1 ∷ 5 ∷ []) symmetric_key recipients 0
unfolding prefixed_key
chunkable = record {
  index_fits = omega arith;
  size_fits = omega arith;
  allowed = omega arith;
  recipients_fit = omega arith;
  prefixed = refl;
  ephemeral_sized = refl;
  iv_sized = refl;
  ivs_sized = λ i. refl;
  key_sized = refl;
}

decrypt_chunk-encrypt_chunk_example :
    (chunk : MultiRecipientChunk) × ((encrypt_chunk consts crypto node draw
          (1 ∷ 5 ∷ [])
          recipients
          0
          true
          symmetric_key
          none
        ≡ ok chunk)
      × (decrypt_chunk consts crypto node chunk.data_ (replicate 12 2) (replicate 32 9) none
          ≡ ok (1 ∷ 5 ∷ [], chunk.header)))
decrypt_chunk-encrypt_chunk_example =
    decrypt_chunk-encrypt_chunk consts crypto crypto-IsGcm consts-IsDocumentedChunk node draw
      ephemeral (1 ∷ 5 ∷ []) symmetric_key (replicate 12 2) (replicate 32 9) (7 ∷ []) recipients 0
      true chunkable receive ((λ e. agree (replicate 33 3)), ((λ e. agree (replicate 33 2)), tt))
      bob_listed

decrypt_chunk-not_found_example :
    (chunk : MultiRecipientChunk) × ((encrypt_chunk consts crypto node draw
          (1 ∷ 5 ∷ [])
          recipients
          0
          true
          symmetric_key
          none
        ≡ ok chunk)
      × (decrypt_chunk consts crypto node chunk.data_ (replicate 12 3) (replicate 32 9) none
          ≡ err recipient_not_found))
decrypt_chunk-not_found_example =
    decrypt_chunk-not_found consts crypto crypto-IsGcm consts-IsDocumentedChunk node draw ephemeral
      (1 ∷ 5 ∷ []) symmetric_key (replicate 12 3) (replicate 32 9) recipients 0 true chunkable
      receive carol_unlisted

abbrev long_data : Bytes
long_data = replicate 63 5

signed-IsChunkable :
    IsChunkable consts draw ephemeral ((1 ∷ long_data) ++ long_data) symmetric_key recipients 0
unfolding prefixed_key
signed-IsChunkable = record {
  index_fits = omega arith;
  size_fits = omega arith;
  allowed = omega arith;
  recipients_fit = omega arith;
  prefixed = refl;
  ephemeral_sized = refl;
  iv_sized = refl;
  ivs_sized = λ i. refl;
  key_sized = refl;
}

sender_key : get_public_key consts node (replicate 32 4) ≡ ok (2 ∷ replicate 32 4)
unfolding get_public_key all_zero sample_public_key
sender_key = refl

data_signed : sign consts node (replicate 32 4) long_data ≡ ok (1 ∷ long_data)
unfolding sign
data_signed = refl

decrypt_chunk-encrypt_chunk_signed_example :
    (chunk : MultiRecipientChunk) × ((encrypt_chunk consts crypto node draw long_data recipients 0
          false symmetric_key
          (some (replicate 32 4))
        ≡ ok chunk)
      × (decrypt_chunk consts crypto node chunk.data_
            (replicate 12 1)
            (replicate 32 9)
            (some (2 ∷ replicate 32 4))
          ≡ ok (long_data, chunk.header)))
decrypt_chunk-encrypt_chunk_signed_example =
    decrypt_chunk-encrypt_chunk_signed consts crypto crypto-IsGcm consts-IsDocumentedChunk node
      node-IsEcdsa draw ephemeral long_data (1 ∷ long_data) (replicate 32 4) (2 ∷ replicate 32 4)
      symmetric_key (replicate 12 1) (replicate 32 9) (7 ∷ []) recipients 0 false signed-IsChunkable
      receive ((λ e. agree (replicate 33 3)), ((λ e. agree (replicate 33 2)), tt)) alice_listed
      sender_key data_signed refl
