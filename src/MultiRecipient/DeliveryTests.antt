-- ===== src/MultiRecipient/DeliveryTests.antt =====
-- The theorems on encryption for several members, at a message for two of them.
use node_ecies_lib.Prelude.{◌≡◌, refl, none, some, List, [], ◌∷◌, ◌++◌, replicate, All, arith}
use node_ecies_lib.Prelude.Int.{sub_ℕ}
use node_ecies_lib.Errors.{ok}
use node_ecies_lib.Buffer.{Bytes, equals}
use node_ecies_lib.Ecies.{
  IsDocumented, IdProvider, PlatformId, buffer, uint8_array, other, id_bytes,
}
use node_ecies_lib.Ecies.Sample.{consts}
use node_ecies_lib.CryptoCore.{all_zero, get_public_key, sign}
use node_ecies_lib.CryptoCore.Sample.{node, node-IsEcdsa, sample_public_key}
use node_ecies_lib.MultiRecipient.Header.{Message}
use node_ecies_lib.MultiRecipient.Keys.{Crypto, IsGcm}
use node_ecies_lib.MultiRecipient.Encrypt.{
  Member, find_index, same_id, encrypt_multiple, decrypt_multiple, decrypt_multiple_parts,
}
use node_ecies_lib.MultiRecipient.ForAll.{as_recipient}
use node_ecies_lib.MultiRecipient.Decrypted.{IsEncryptable, IsFound}
use node_ecies_lib.MultiRecipient.Delivered.{
  decrypt_multiple-encrypt_multiple, decrypt_multiple-encrypt_multiple_signed,
}
use node_ecies_lib.MultiRecipient.Overloads.{decrypt_multiple_parts-decrypt_multiple}
use node_ecies_lib.MultiChunk.{ChunkDraw, prefixed_key}
use node_ecies_lib.MultiChunk.Sealed.{IsDocumentedChunk, CanReceive}

consts-IsDocumented : IsDocumented consts
consts-IsDocumented = record {
  version_one = refl;
  suite_one = refl;
  type_one = refl;
  compressed_key = refl;
  data_length_eight = refl;
  count_two = refl;
  count_fits = omega arith;
  length_fits = omega arith;
  id_nonempty = omega arith;
  key_nonempty = omega arith;
  version_byte = omega arith;
  suite_byte = omega arith;
  type_byte = omega arith;
}

consts-IsDocumentedChunk : IsDocumentedChunk consts
consts-IsDocumentedChunk = record { iv_twelve = refl; tag_sixteen = refl; key_fits = omega arith }

abbrev raw_bytes : PlatformId Bytes → Bytes
raw_bytes (buffer b) = b
raw_bytes (uint8_array b) = b
raw_bytes (other b) = b

abbrev provider : IdProvider Bytes
provider = record { to_bytes = raw_bytes; from_bytes = λ b. ok (buffer b) }

-- All agree on one secret, and the tag is all zeros.
abbrev crypto : Crypto
crypto = record {
  normalize_public_key = λ k. ok k;
  derive_shared_key = λ s. s;
  compute_secret = λ a b. ok (7 ∷ []);
  cipher = λ k iv aad m. (m, replicate 16 0);
  decipher = λ k iv tag aad e. ok e;
}

crypto-IsGcm : IsGcm consts crypto
crypto-IsGcm = record {
  decipher-cipher = λ key iv aad m. refl;
  cipher_size = λ key iv aad m. refl;
  tag_size = λ key iv aad m. refl;
  sizes = refl;
}

abbrev ephemeral : Bytes
ephemeral = replicate 33 2

abbrev draw : ChunkDraw
draw = record {
  ephemeral_private = replicate 32 8;
  ephemeral_public = ephemeral;
  key_ivs = λ i. replicate 12 i;
  iv = replicate 12 4;
}

abbrev alice : Member Bytes
alice = record { id = buffer (replicate 12 1); public_key = replicate 33 3; private_key = none }

abbrev bob : Member Bytes
bob = record {
  id = other (replicate 12 2);
  public_key = replicate 33 2;
  private_key = some (replicate 32 9);
}

abbrev members : List (Member Bytes)
members = alice ∷ bob ∷ []

abbrev symmetric_key : Bytes
symmetric_key = replicate 32 6

receive :
    All
      (λ m.
        CanReceive consts crypto
          (replicate 32 8)
          (as_recipient consts provider crypto draw symmetric_key m))
      members
unfolding id_bytes
receive = (
  record {
    id_sized = refl;
    normalized = replicate 33 3;
    secret = 7 ∷ [];
    normalizes = refl;
    agrees = refl;
  },
  (
    record {
      id_sized = refl;
      normalized = replicate 33 2;
      secret = 7 ∷ [];
      normalizes = refl;
      agrees = refl;
    },
    tt,
  ),
)

bob-IsFound : IsFound provider crypto draw ephemeral (replicate 32 9) (7 ∷ []) members bob
unfolding find_index same_id equals
bob-IsFound = record {
  index = 1;
  entry = bob;
  holds = refl;
  finds = refl;
  stands = refl;
  same_bytes = refl;
  agree = record {
    receiver_normalized = replicate 33 2;
    ephemeral_normalized = ephemeral;
    normalizes_receiver = refl;
    normalizes_ephemeral = refl;
    here = refl;
    there = refl;
  };
}

message-IsEncryptable :
    IsEncryptable consts provider crypto draw ephemeral (1 ∷ 5 ∷ []) symmetric_key members
unfolding prefixed_key
message-IsEncryptable = record {
  some_recipient = omega arith;
  recipients_fit = omega arith;
  size_fits = omega arith;
  size_allowed = omega arith;
  id_size_fits = omega arith;
  prefixed = refl;
  iv_sized = refl;
  ivs_sized = λ i. refl;
  key_sized = refl;
  receive = receive;
}

decrypt_multiple-encrypt_multiple_example :
    (m : Message Bytes) × ((encrypt_multiple consts provider crypto node draw symmetric_key members
          (1 ∷ 5 ∷ [])
          none
          none
        ≡ ok m)
      × (decrypt_multiple consts provider crypto node m bob none ≡ ok (1 ∷ 5 ∷ [])))
decrypt_multiple-encrypt_multiple_example =
    decrypt_multiple-encrypt_multiple consts consts-IsDocumented consts-IsDocumentedChunk provider
      crypto crypto-IsGcm node draw ephemeral (1 ∷ 5 ∷ []) symmetric_key (replicate 32 9) (7 ∷ [])
      members bob bob-IsFound message-IsEncryptable

abbrev long_data : Bytes
long_data = replicate 63 5

signed-IsEncryptable :
    IsEncryptable consts provider crypto draw ephemeral
      ((1 ∷ long_data) ++ long_data)
      symmetric_key
      members
unfolding prefixed_key
signed-IsEncryptable = record {
  some_recipient = omega arith;
  recipients_fit = omega arith;
  size_fits = omega arith;
  size_allowed = omega arith;
  id_size_fits = omega arith;
  prefixed = refl;
  iv_sized = refl;
  ivs_sized = λ i. refl;
  key_sized = refl;
  receive = receive;
}

sender_key : get_public_key consts node (replicate 32 4) ≡ ok (2 ∷ replicate 32 4)
unfolding get_public_key all_zero sample_public_key
sender_key = refl

data_signed : sign consts node (replicate 32 4) long_data ≡ ok (1 ∷ long_data)
unfolding sign
data_signed = refl

decrypt_multiple-encrypt_multiple_signed_example :
    (m : Message Bytes) × ((encrypt_multiple consts provider crypto node draw symmetric_key members
          long_data none
          (some (replicate 32 4))
        ≡ ok m)
      × (decrypt_multiple consts provider crypto node m bob (some (2 ∷ replicate 32 4))
          ≡ ok long_data))
decrypt_multiple-encrypt_multiple_signed_example =
    decrypt_multiple-encrypt_multiple_signed consts consts-IsDocumented consts-IsDocumentedChunk
      provider crypto crypto-IsGcm node draw ephemeral long_data symmetric_key (replicate 32 9)
      (7 ∷ []) members bob bob-IsFound node-IsEcdsa (1 ∷ long_data) (replicate 32 4)
      (2 ∷ replicate 32 4) signed-IsEncryptable sender_key data_signed refl

decrypt_multiple_parts-decrypt_multiple_example :
    decrypt_multiple_parts consts provider crypto node
      (replicate 30 5)
      (buffer (replicate 12 1) ∷ other (replicate 12 2) ∷ [])
      (replicate 60 1 ∷ replicate 60 3 ∷ [])
      ephemeral
      bob.id
      (replicate 32 9)
      none
    ≡ decrypt_multiple consts provider crypto node
        (record {
          header = record {
            data_length = sub_ℕ 30 28;
            recipient_count = 2;
            recipient_ids = buffer (replicate 12 1) ∷ other (replicate 12 2) ∷ [];
            recipient_keys = replicate 60 1 ∷ replicate 60 3 ∷ [];
            header_size = 0;
            ephemeral_public_key = some ephemeral;
          };
          encrypted_message = replicate 30 5;
        })
        bob
        none
decrypt_multiple_parts-decrypt_multiple_example =
    decrypt_multiple_parts-decrypt_multiple consts provider crypto node (replicate 30 5)
      (buffer (replicate 12 1) ∷ other (replicate 12 2) ∷ []) (replicate 60 1 ∷ replicate 60 3 ∷ [])
      ephemeral (replicate 32 9) bob none 0 (omega arith) refl
