-- ===== src/CryptoCore/Sample.antt =====
-- A stand-in for the curve and the ciphers, for the tests: a public key is its private key behind a
-- prefix, every two parties share one secret, and a ciphertext is its plaintext.
use node_ecies_lib.Prelude.{
  refl, inl, not, ◌&&◌, [], ◌∷◌, length, replicate, ◌==◌, if◌then◌else◌, arith,
}
use node_ecies_lib.Errors.{Result, ok, err, crypto_error}
use node_ecies_lib.Buffer.{Bytes, equals, subarray_from}
use node_ecies_lib.Buffer.Laws.{equals_refl}
use node_ecies_lib.CryptoCore.{Node, all_zero, starts_with}
use node_ecies_lib.CryptoCore.Agreement.{IsSecp256k1, IsEcdsa}

unfoldable pub sample_public_key : Bytes → Result Bytes
unfolding all_zero
sample_public_key a = if (length a == 32) && not (all_zero a) then ok (2 ∷ a) else err crypto_error

abbrev pub node : Node Bytes
node = record {
  public_key_of = sample_public_key;
  shared_secret_of = λ a p. ok (2 ∷ 7 ∷ []);
  hkdf_sha256 = λ secret salt info size. replicate size 5;
  sha256 = λ m. 1 ∷ m;
  sign_hash = λ hash key. ok hash;
  from_compact = λ signature. ok signature;
  verify_hash = λ sig hash key. ok (equals sig hash);
  cipher = λ key iv aad m. (m, replicate 16 0);
  decipher = λ key iv tag aad m. ok m;
}

pub node-IsSecp256k1 : IsSecp256k1 node
unfolding sample_public_key all_zero starts_with subarray_from
node-IsSecp256k1 = record {
  compressed = λ a p h. (ground arith, inl (ground arith));
  x_nonzero = λ a p h. ground arith;
  symmetric = λ a b p q h k. refl;
}

pub node-IsEcdsa : IsEcdsa node
node-IsEcdsa = record {
  verifies = λ private_key public_key hash signature h k. ground (arith, equals_refl hash);
}
