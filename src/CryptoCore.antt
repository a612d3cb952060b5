-- ===== src/CryptoCore.antt =====
-- `EciesCryptoCore` of services/ecies/crypto-core.ts: the forms of public keys, the shared secret,
-- signatures. @noble/curves and Node's crypto module are a parameter. Buffers are never null.
pub mod Normal
pub mod Agreement
pub mod Sample
mod Tests
use node_ecies_lib.Prelude.{
  ℕ, ◌%◌, Bool, true, false, ◌&&◌, ◌||◌, Option, List, [], ◌∷◌, length, ◌==◌, if◌then◌else◌,
}
use node_ecies_lib.Errors.{
  Result, ok, err, ◌>>=◌, ◌>>◌, throw_if, invalid_ephemeral_public_key, private_key_not_loaded,
  invalid_recipient_public_key, secret_computation_failed,
}
use node_ecies_lib.Buffer.{Bytes, concat, subarray_from}
use node_ecies_lib.Ecies.{Consts}

-- secp256k1.getPublicKey, getSharedSecret (both compressed), sign, Signature.fromCompact and verify
-- of @noble/curves; hkdfSync, createHash, createCipheriv and createDecipheriv of Node, the last two
-- with update, final and the authentication tag. `S` is a parsed signature.
pub record Node (S : Type 0) : Type 0 where
  pub public_key_of : Bytes → Result Bytes
  pub shared_secret_of : Bytes → Bytes → Result Bytes
  pub hkdf_sha256 : Bytes → Bytes → Bytes → ℕ → Bytes
  pub sha256 : Bytes → Bytes
  pub sign_hash : Bytes → Bytes → Result Bytes
  pub from_compact : Bytes → Result S
  pub verify_hash : S → Bytes → Bytes → Result Bool
  pub cipher : Bytes → Bytes → Option Bytes → Bytes → Bytes × Bytes
  pub decipher : Bytes → Bytes → Bytes → Option Bytes → Bytes → Result Bytes

-- `key[0] === b`
unfoldable pub starts_with : ℕ → Bytes → Bool
starts_with b [] = false
starts_with b (x ∷ xs) = x == b

-- `bytes.every((byte) => byte === 0)`
unfoldable pub all_zero : Bytes → Bool
all_zero [] = true
all_zero (x ∷ xs) = (x == 0) && all_zero xs

unfoldable pub normalize_public_key : Consts → Bytes → Result Bytes
unfolding starts_with
normalize_public_key c key =
    if (length key == 33) && (starts_with 2 key || starts_with 3 key)
    then ok key
    else if (length key == 65) && starts_with 4 key
    then ok key
    else if length key == 64
    then ok (concat ((4 ∷ []) ∷ key ∷ []))
    else if length key == c.raw_public_key_length
    then ok (concat ((c.public_key_magic % 256 ∷ []) ∷ key ∷ []))
    else err invalid_ephemeral_public_key

module _ {S : Type 0} (c : Consts) (node : Node S) where
  unfoldable pub get_public_key : Bytes → Result Bytes
  unfolding all_zero
  get_public_key private_key = do
    throw_if (all_zero private_key) private_key_not_loaded
    node.public_key_of private_key

  unfoldable pub compute_shared_secret : Bytes → Bytes → Result Bytes
  unfolding all_zero normalize_public_key subarray_from
  compute_shared_secret private_key public_key = do
    normalized_key ← normalize_public_key c public_key
    throw_if (all_zero (subarray_from normalized_key 1)) invalid_recipient_public_key
    shared_secret ← node.shared_secret_of private_key normalized_key
    let secret = subarray_from shared_secret 1
    throw_if (all_zero secret) secret_computation_failed
    ok secret

  unfoldable pub derive_shared_key : Bytes → Bytes → Bytes → ℕ → Bytes
  derive_shared_key shared_secret salt info size = node.hkdf_sha256 shared_secret salt info size

  unfoldable pub sign : Bytes → Bytes → Result Bytes
  sign private_key message = node.sign_hash (node.sha256 message) private_key

  -- The catch of `verify`.
  abbrev or_false : Result Bool → Bool
  or_false (ok b) = b
  or_false (err e) = false

  unfoldable pub verify : Bytes → Bytes → Bytes → Bool
  verify public_key message signature =
      or_false (
        node.from_compact signature >>= λ sig.
        node.verify_hash sig (node.sha256 message) public_key)
