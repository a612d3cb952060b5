-- ===== src/Stream/Tests.antt =====
-- The theorems on streams at a service that puts what it drew in front of the plaintext.
use node_ecies_lib.Prelude.{
  ℕ, ◌+◌, ◌≡◌, ◌<◌, ◌≤◌, refl, inr, true, false, none, List, [], ◌∷◌, take, replicate, All, arith,
}
use node_ecies_lib.Errors.{Result, ok, err, decryption_failed}
use node_ecies_lib.Buffer.{Bytes, concat}
use node_ecies_lib.Stream.Chunks.{
  EciesService, DecryptedChunk, chunk_loop, last_chunk, encrypt_stream, decrypt_stream,
}
use node_ecies_lib.Stream.Sealed.{IsPair}
use node_ecies_lib.Stream.Fuel.{chunk_loop_fuel}
use node_ecies_lib.Stream.Loops.{datas}
use node_ecies_lib.Stream.RoundTrip.{
  IsStreamable, decrypt_stream-encrypt_stream, decrypt_stream-take,
}
use node_ecies_lib.Stream.Multiple.{
  Recipient, Processor, encrypt_stream_multiple, decrypt_stream_multiple,
}
use node_ecies_lib.Stream.Recipients.{
  IsRecipient, AreCounted, encrypt_stream_multiple-IsRecipient, decrypt_stream_multiple-AreCounted,
}
use node_ecies_lib.Stream.Order.{
  InOrder, IsUnmarked, decrypt_stream-InOrder, encrypt_stream-IsUnmarked,
}

abbrev unseal : Bytes → Bytes → Result Bytes
unseal key [] = err decryption_failed
unseal key (b ∷ bs) = ok bs

abbrev service : EciesService ℕ
service = record {
  encrypt_with_length = λ r key m. ok (r ∷ m);
  decrypt_with_length_and_header = unseal;
}

abbrev public_key : Bytes
public_key = replicate 33 2

abbrev private_key : Bytes
private_key = replicate 32 5

abbrev rand : ℕ → ℕ
rand i = i + 7

abbrev pair : IsPair service public_key private_key
pair = record {
  seal = λ r m. r ∷ m;
  limit = 100;
  encrypts = λ r m full fits. refl;
  decrypts = λ r m full fits. refl;
}

abbrev source : List Bytes
source = (1 ∷ 2 ∷ 3 ∷ []) ∷ (4 ∷ 5 ∷ []) ∷ []

abbrev even_source : List Bytes
even_source = (1 ∷ 2 ∷ 3 ∷ []) ∷ (4 ∷ []) ∷ []

source-IsStreamable : IsStreamable service rand pair 2 false source
source-IsStreamable = record {
  public_key_fits = inr refl;
  private_key_fits = refl;
  items_fit = (omega arith, (omega arith, tt));
  size_pos = omega arith;
  size_fits = omega arith;
  countable = omega arith;
}

even_source-IsStreamable : IsStreamable service rand pair 2 true even_source
even_source-IsStreamable = record {
  public_key_fits = inr refl;
  private_key_fits = refl;
  items_fit = (omega arith, (omega arith, tt));
  size_pos = omega arith;
  size_fits = omega arith;
  countable = omega arith;
}

decrypt_stream-encrypt_stream_example :
    let y = encrypt_stream service rand public_key 2 false source in
    let z = decrypt_stream service private_key (datas y.items) in
    (y.error ≡ none) × (z.error ≡ none) × (concat z.items ≡ concat source)
decrypt_stream-encrypt_stream_example =
    decrypt_stream-encrypt_stream service rand pair 2 false source source-IsStreamable

decrypt_stream-take_example :
    let chunks = datas (encrypt_stream service rand public_key 2 false source).items in
    decrypt_stream service private_key (take 1 chunks)
    ≡ record { items = take 1 (decrypt_stream service private_key chunks).items; error = none }
decrypt_stream-take_example =
    decrypt_stream-take service rand pair 2 false source 1 source-IsStreamable

-- The second chunk is marked as the last, and the third has the index 0 again.
abbrev received : List Bytes
received =
    (0 ∷ 0 ∷ 0 ∷ 0 ∷ 0 ∷ 9 ∷ 4 ∷ [])
    ∷ (0 ∷ 0 ∷ 0 ∷ 1 ∷ 1 ∷ 9 ∷ 5 ∷ 6 ∷ [])
    ∷ (0 ∷ 0 ∷ 0 ∷ 0 ∷ 0 ∷ 9 ∷ [])
    ∷ []

two_pieces : (decrypt_stream service private_key received).items ≡ (4 ∷ []) ∷ (5 ∷ 6 ∷ []) ∷ []
unfolding decrypt_stream
two_pieces = refl

decrypt_stream-InOrder_example :
    InOrder service private_key 0 (decrypt_stream service private_key received).items received
decrypt_stream-InOrder_example = decrypt_stream-InOrder service private_key received

encrypt_stream-IsUnmarked_example :
    All IsUnmarked (datas (encrypt_stream service rand public_key 2 true even_source).items)
encrypt_stream-IsUnmarked_example =
    encrypt_stream-IsUnmarked service rand pair 2 true even_source even_source-IsStreamable
      (omega arith)

-- A processor that puts what it drew in front of the plaintext.
abbrev unseal_chunk : Bytes → Bytes → Bytes → Result DecryptedChunk
unseal_chunk [] id key = err decryption_failed
unseal_chunk (b ∷ bs) id key = ok (record { data_ = bs; index = b; flags = 0 })

abbrev processor : Processor Bytes ℕ
processor = record { encrypt_chunk = λ r m rs i last key. ok (r ∷ m); decrypt_chunk = unseal_chunk }

abbrev recipients : List Recipient
recipients = record { id = 1 ∷ 2 ∷ []; public_key = public_key } ∷ []

one_chunk :
    (encrypt_stream_multiple processor rand recipients private_key 2 2 ((1 ∷ []) ∷ [])).error ≡ none
unfolding encrypt_stream_multiple
one_chunk = refl

encrypt_stream_multiple-IsRecipient_example :
    (0 < 1) × (1 ≤ 65535) × All (λ r. IsRecipient 2 r) recipients
encrypt_stream_multiple-IsRecipient_example =
    encrypt_stream_multiple-IsRecipient processor rand recipients private_key 2 2 ((1 ∷ []) ∷ [])
      (inr one_chunk)

abbrev received_chunks : List Bytes
received_chunks = (0 ∷ 9 ∷ []) ∷ (1 ∷ 8 ∷ 7 ∷ []) ∷ (3 ∷ []) ∷ []

two_chunks_read :
    (decrypt_stream_multiple processor (1 ∷ 2 ∷ []) private_key 2 received_chunks).items
    ≡ (9 ∷ []) ∷ (8 ∷ 7 ∷ []) ∷ []
unfolding decrypt_stream_multiple
two_chunks_read = refl

decrypt_stream_multiple-AreCounted_example :
    AreCounted processor
      (1 ∷ 2 ∷ [])
      private_key
      0
      (decrypt_stream_multiple processor (1 ∷ 2 ∷ []) private_key 2 received_chunks).items
      received_chunks
decrypt_stream_multiple-AreCounted_example =
    decrypt_stream_multiple-AreCounted processor (1 ∷ 2 ∷ []) private_key 2 received_chunks

chunk_loop_fuel_example :
    chunk_loop service rand public_key 2 false 3
      (1 ∷ 2 ∷ 3 ∷ [])
      0
      (last_chunk service rand public_key 2 false)
    ≡ chunk_loop service rand public_key 2 false 9
        (1 ∷ 2 ∷ 3 ∷ [])
        0
        (last_chunk service rand public_key 2 false)
chunk_loop_fuel_example =
    chunk_loop_fuel service rand public_key 2 false (omega arith)
      (last_chunk service rand public_key 2 false) 3 9 (1 ∷ 2 ∷ 3 ∷ []) 0 (omega arith)
      (omega arith)
