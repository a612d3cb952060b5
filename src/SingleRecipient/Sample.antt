-- ===== src/SingleRecipient/Sample.antt =====
-- A receiver, an ephemeral key and a message for the tests, at the stand-ins of the crypto core.
use node_ecies_lib.Prelude.{refl, [], ◌∷◌, replicate, arith}
use node_ecies_lib.Buffer.{Bytes, subarray, subarray_from}
use node_ecies_lib.Ecies.Sample.{consts}
use node_ecies_lib.CryptoCore.{
  starts_with, all_zero, normalize_public_key, get_public_key, compute_shared_secret,
}
use node_ecies_lib.CryptoCore.Sample.{node, sample_public_key}
use node_ecies_lib.SingleRecipient.Reading.{IsDocumentedSingle}
use node_ecies_lib.SingleRecipient.Written.{IsAead, IsExchange, IsMessage}

pub consts-IsDocumentedSingle : IsDocumentedSingle consts
consts-IsDocumentedSingle = record {
  version_one = refl;
  suite_one = refl;
  compressed_key = refl;
  length_eight = refl;
  basic_overhead = refl;
  with_length_overhead = refl;
  version_byte = omega arith;
  suite_byte = omega arith;
  basic_byte = omega arith;
  with_length_byte = omega arith;
  basic_single = omega arith;
  with_length_single = omega arith;
  types_differ = omega arith;
}

pub node-IsAead : IsAead consts node
node-IsAead = record {
  decipher-cipher = λ key iv aad m. refl;
  cipher_size = λ key iv aad m. refl;
  tag_size = λ key iv aad m. refl;
}

abbrev pub receiver_private : Bytes
receiver_private = replicate 32 9

abbrev pub ephemeral_private : Bytes
ephemeral_private = replicate 32 8

pub exchange :
    IsExchange consts node receiver_private
      (2 ∷ receiver_private)
      ephemeral_private
      (2 ∷ ephemeral_private)
      (7 ∷ [])
unfolding get_public_key all_zero sample_public_key compute_shared_secret normalize_public_key
    starts_with subarray subarray_from
exchange = record { receiver = refl; ephemeral = refl; shared = refl }

abbrev pub message : Bytes
message = 104 ∷ 105 ∷ []

pub message-IsMessage : IsMessage consts message
message-IsMessage = record {
  nonempty = omega arith;
  not_large = omega arith;
  allowed = omega arith;
}
