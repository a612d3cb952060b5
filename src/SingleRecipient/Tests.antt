-- ===== src/SingleRecipient/Tests.antt =====
-- The theorems on one recipient's messages, at the stand-ins of the crypto core.
use node_ecies_lib.Prelude.{
  ◌+◌, ◌≡◌, refl, inl, none, some, false, [], ◌∷◌, ◌++◌, length, replicate,
}
use node_ecies_lib.Prelude.Int.{pos}
use node_ecies_lib.Errors.{ok, err, decryption_failed}
use node_ecies_lib.Buffer.{Bytes, read_uint_be, subarray, subarray_from, be_acc}
use node_ecies_lib.Ecies.Sample.{consts}
use node_ecies_lib.CryptoCore.{starts_with, normalize_public_key}
use node_ecies_lib.CryptoCore.Sample.{node, node-IsSecp256k1}
use node_ecies_lib.SingleRecipient.Sample.{
  consts-IsDocumentedSingle, node-IsAead, receiver_private, ephemeral_private, exchange, message,
  message-IsMessage,
}
use node_ecies_lib.SingleRecipient.{encrypt}
use node_ecies_lib.SingleRecipient.Parse.{
  ParsedMessage, differs, parse_data, check_components, parse_components, parse_encrypted_message,
  fixed_overhead,
}
use node_ecies_lib.SingleRecipient.Decrypt.{decrypt_with_header_ex}
use node_ecies_lib.SingleRecipient.RoundTrip.{decrypt-encrypt_with_length, decrypt-encrypt_basic}
use node_ecies_lib.SingleRecipient.Refusals.{
  IsEciesError, IsParsed, decrypt_with_header_ex-IsEciesError, parse_encrypted_message-IsParsed,
}

differs-none : differs none 66 ≡ false
unfolding differs
differs-none = refl

differs_same : differs (some 33) 33 ≡ false
unfolding differs
differs_same = refl

empty_fails :
    decrypt_with_header_ex consts node ok none receiver_private [] 0 none ≡ err decryption_failed
unfolding decrypt_with_header_ex parse_encrypted_message read_uint_be
empty_fails = refl

decrypt-encrypt_with_length_example :
    (e : Bytes) × ((encrypt consts node 66
          (2 ∷ receiver_private)
          message
          (1 ∷ 2 ∷ 3 ∷ [])
          ephemeral_private
          (replicate 12 4)
        ≡ ok e)
      × ((length e ≡ 3 + (2 + 72))
          × (decrypt_with_header_ex consts node ok none receiver_private (e ++ (6 ∷ [])) 3 none
              ≡ ok (message, pos (2 + 72)))))
decrypt-encrypt_with_length_example =
    decrypt-encrypt_with_length consts consts-IsDocumentedSingle node node-IsSecp256k1 node-IsAead
      ok receiver_private (2 ∷ receiver_private) ephemeral_private (2 ∷ ephemeral_private) (7 ∷ [])
      exchange (replicate 12 4) refl (1 ∷ 2 ∷ 3 ∷ []) message message-IsMessage none refl
      differs-none (6 ∷ [])

decrypt-encrypt_basic_example :
    (e : Bytes) × ((encrypt consts node 33
          (2 ∷ receiver_private)
          message
          []
          ephemeral_private
          (replicate 12 4)
        ≡ ok e)
      × ((length e ≡ 2 + 64)
          × (decrypt_with_header_ex consts node ok (some 33) receiver_private e 0 none
              ≡ ok (message, pos 63))))
decrypt-encrypt_basic_example =
    decrypt-encrypt_basic consts consts-IsDocumentedSingle node node-IsSecp256k1 node-IsAead ok
      receiver_private (2 ∷ receiver_private) ephemeral_private (2 ∷ ephemeral_private) (7 ∷ [])
      exchange (replicate 12 4) refl [] message message-IsMessage (some 33) refl differs_same

decrypt_with_header_ex-IsEciesError_example : IsEciesError decryption_failed
decrypt_with_header_ex-IsEciesError_example =
    decrypt_with_header_ex-IsEciesError consts node ok none receiver_private [] 0 none
      decryption_failed (inl empty_fails)

abbrev received : Bytes
received =
    1
    ∷ 1
    ∷ 66
    ∷ ((2 ∷ ephemeral_private)
        ++ (replicate 12 4 ++ (replicate 16 0 ++ (0 ∷ 0 ∷ 0 ∷ 0 ∷ 0 ∷ 0 ∷ 0 ∷ 2 ∷ 104 ∷ 105 ∷ []))))

abbrev parsed : ParsedMessage
parsed = record {
  header = record {
    preamble = [];
    encryption_type = 66;
    ephemeral_public_key = 2 ∷ ephemeral_private;
    iv = replicate 12 4;
    auth_tag = replicate 16 0;
    data_length = pos 2;
    header_size = 72;
  };
  data_ = message;
  remainder = [];
}

received-parsed : parse_encrypted_message consts ok none received 0 none ≡ ok parsed
unfolding parse_encrypted_message parse_components parse_data check_components differs subarray
    subarray_from read_uint_be be_acc normalize_public_key starts_with fixed_overhead
received-parsed = refl

parse_encrypted_message-IsParsed_example : IsParsed consts parsed
parse_encrypted_message-IsParsed_example =
    parse_encrypted_message-IsParsed consts node ok none received 0 none parsed received-parsed
