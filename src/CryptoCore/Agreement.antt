-- ===== src/CryptoCore/Agreement.antt =====
-- The shared secret that two parties compute of each other's public keys, and signatures.
use node_ecies_lib.Prelude.{◌≡◌, refl, sym, ◌∙◌, true, false, ◌⊎◌, inl, inr, length, arith}
use node_ecies_lib.Errors.{ok, ◌>>=◌, ◌>>◌, throw_if, secret_computation_failed}
use node_ecies_lib.Buffer.{Bytes, subarray_from}
use node_ecies_lib.Ecies.{Consts}
use node_ecies_lib.CryptoCore.{
  Node, starts_with, all_zero, normalize_public_key, get_public_key, compute_shared_secret, sign,
  verify,
}
use node_ecies_lib.CryptoCore.Normal.{IsPoint, compressed_even, compressed_odd, normalize-IsPoint}

-- Of secp256k1: a public key is a compressed point whose x coordinate is not zero (7 is no square
-- modulo p), and two parties agree on the point they share.
pub record IsSecp256k1 {S : Type 0} (node : Node S) : Type 0 where
  pub compressed :
      (a p : Bytes)
      → node.public_key_of a ≡ ok p
      → (length p ≡ 33) × ((starts_with 2 p ≡ true) ⊎ (starts_with 3 p ≡ true))
  pub x_nonzero : (a p : Bytes) → node.public_key_of a ≡ ok p → all_zero (subarray_from p 1) ≡ false
  pub symmetric :
      (a b p q : Bytes)
      → node.public_key_of a ≡ ok p
      → node.public_key_of b ≡ ok q
      → node.shared_secret_of a q ≡ node.shared_secret_of b p

-- A signature that is made with a private key verifies with its public key.
pub record IsEcdsa {S : Type 0} (node : Node S) : Type 0 where
  pub verifies :
      (private_key public_key hash signature : Bytes)
      → node.public_key_of private_key ≡ ok public_key
      → node.sign_hash hash private_key ≡ ok signature
      → (node.from_compact signature >>= λ sig. node.verify_hash sig hash public_key) ≡ ok true

module _ (c : Consts) {S : Type 0} (node : Node S) where
  pub get_public_key_inv :
      (a p : Bytes) → get_public_key c node a ≡ ok p → node.public_key_of a ≡ ok p
  unfolding get_public_key
  get_public_key_inv a p h = ground arith

  pub public_key-IsPoint :
      IsSecp256k1 node → (a p : Bytes) → node.public_key_of a ≡ ok p → IsPoint p
  public_key-IsPoint law a p h =
      let form = law.compressed a p h in
      elim form.1 [ inl e ↦ compressed_even form.0 e | inr o ↦ compressed_odd form.0 o ]

  pub public_key_normalized :
      IsSecp256k1 node
      → (a p : Bytes) → get_public_key c node a ≡ ok p
      → normalize_public_key c p ≡ ok p
  public_key_normalized law a p h =
      normalize-IsPoint c p (public_key-IsPoint law a p (get_public_key_inv a p h))

  -- The secret computed of a public key, in terms of the library's.
  pub compute_shared_secret-public :
      IsSecp256k1 node
      → (a b q : Bytes) → node.public_key_of b ≡ ok q
      → compute_shared_secret c node a q ≡ (
          node.shared_secret_of a q >>= λ s.
          throw_if (all_zero (subarray_from s 1)) secret_computation_failed
          >> ok (subarray_from s 1))
  unfolding compute_shared_secret
  compute_shared_secret-public law a b q h =
      rw (normalize-IsPoint c q (public_key-IsPoint law b q h), law.x_nonzero b q h) refl

  -- Two parties compute the same secret of each other's public keys, or fail alike.
  pub compute_shared_secret_symmetric :
      IsSecp256k1 node
      → (a b p q : Bytes) → get_public_key c node a ≡ ok p
      → get_public_key c node b ≡ ok q
      → compute_shared_secret c node a q ≡ compute_shared_secret c node b p
  compute_shared_secret_symmetric law a b p q ha hb =
      let pa = get_public_key_inv a p ha in
      let pb = get_public_key_inv b q hb in
      compute_shared_secret-public law a b q pb
      ∙ rw (law.symmetric a b p q pa pb) refl
      ∙ sym (compute_shared_secret-public law b a p pa)

  -- A message that was signed verifies with the signer's public key.
  pub verify-sign :
      IsEcdsa node
      → (private_key public_key message signature : Bytes)
      → get_public_key c node private_key ≡ ok public_key
      → sign c node private_key message ≡ ok signature
      → verify c node public_key message signature ≡ true
  unfolding sign verify
  verify-sign law private_key public_key message signature key signed =
      rw
        (law.verifies private_key public_key (node.sha256 message) signature
          (get_public_key_inv private_key public_key key) signed)
        refl
