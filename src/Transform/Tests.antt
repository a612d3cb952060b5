-- ===== src/Transform/Tests.antt =====
-- The theorems on the transforms, at the stand-ins of the crypto core.
use node_ecies_lib.Prelude.{ℕ, ◌≡◌, refl, none, append-nil, List, [], ◌∷◌, replicate, arith}
use node_ecies_lib.Errors.{ok}
use node_ecies_lib.Buffer.{Bytes, concat}
use node_ecies_lib.Ecies.Sample.{consts}
use node_ecies_lib.CryptoCore.Sample.{node, node-IsSecp256k1}
use node_ecies_lib.SingleRecipient.Sample.{
  consts-IsDocumentedSingle, node-IsAead, receiver_private, ephemeral_private, exchange,
}
use node_ecies_lib.Service.{Draw}
use node_ecies_lib.Service.Streams.{ValidDraw}
use node_ecies_lib.Transform.{encrypt_transform, decrypt_transform}
use node_ecies_lib.Transform.Delivered.{decrypt_transform-encrypt_transform}
use node_ecies_lib.Transform.Chunking.{transforms-concat}

abbrev draws : ℕ → Draw
draws i = record { ephemeral_private_key = ephemeral_private; iv = replicate 12 i }

abbrev receiver_public : Bytes
receiver_public = 2 ∷ receiver_private

abbrev source : List Bytes
source = (1 ∷ 2 ∷ 3 ∷ []) ∷ [] ∷ (4 ∷ 5 ∷ []) ∷ []

transforms-concat_example :
    (encrypt_transform consts node draws 68 receiver_public source
      ≡ encrypt_transform consts node draws 68 receiver_public ((1 ∷ 2 ∷ 3 ∷ 4 ∷ 5 ∷ []) ∷ []))
    × (decrypt_transform consts node ok receiver_private 68 source
        ≡ decrypt_transform consts node ok receiver_private 68 ((1 ∷ 2 ∷ 3 ∷ 4 ∷ 5 ∷ []) ∷ []))
transforms-concat_example =
    transforms-concat consts node draws receiver_public ok receiver_private 68 source (omega arith)

abbrev valid_draws : ℕ → ValidDraw consts node receiver_private receiver_public
valid_draws i = record {
  draw = record { ephemeral_private_key = ephemeral_private; iv = replicate 12 i };
  ephemeral_public = 2 ∷ ephemeral_private;
  secret = 7 ∷ [];
  exchange = exchange;
  iv_sized = refl;
}

-- The encrypted blocks as one chunk.
abbrev received : List Bytes
received = concat (encrypt_transform consts node draws 68 receiver_public source).blocks ∷ []

decrypt_transform-encrypt_transform_example :
    ((encrypt_transform consts node draws 68 receiver_public source).error ≡ none)
    × ((decrypt_transform consts node ok receiver_private 68 received).error ≡ none)
    × (concat (decrypt_transform consts node ok receiver_private 68 received).blocks
        ≡ 1 ∷ 2 ∷ 3 ∷ 4 ∷ 5 ∷ [])
decrypt_transform-encrypt_transform_example =
    decrypt_transform-encrypt_transform consts consts-IsDocumentedSingle node node-IsSecp256k1
      node-IsAead ok refl receiver_private receiver_public valid_draws 68 (omega arith)
      (omega arith) source received
      (append-nil (concat (encrypt_transform consts node draws 68 receiver_public source).blocks))
