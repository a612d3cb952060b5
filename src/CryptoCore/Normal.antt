-- ===== src/CryptoCore/Normal.antt =====
-- The forms of the keys that `normalizePublicKey` returns.
use node_ecies_lib.Prelude.{
  ◌≡◌, Bool, true, ◌&&◌, ◌||◌, inl, inr, [], length, ◌==◌, arith, Bool-cases, length-append,
  append-nil,
}
use node_ecies_lib.Errors.{ok}
use node_ecies_lib.Buffer.{Bytes}
use node_ecies_lib.Ecies.{Consts}
use node_ecies_lib.CryptoCore.{starts_with, normalize_public_key}

-- A compressed point, or an uncompressed one.
pub data IsPoint (key : Bytes) : Type 0 where
  compressed_even : length key ≡ 33 → starts_with 2 key ≡ true → IsPoint key
  compressed_odd : length key ≡ 33 → starts_with 3 key ≡ true → IsPoint key
  uncompressed : length key ≡ 65 → starts_with 4 key ≡ true → IsPoint key

-- The configured form of a raw key: 32 bytes, with the prefix of a compressed point.
pub record HasRawForm (c : Consts) : Type 0 where
  pub raw_length : c.raw_public_key_length ≡ 32
  pub magic : c.public_key_magic ≡ 2

is_point : Bytes → Bool
is_point key =
    ((length key == 33) && (starts_with 2 key || starts_with 3 key))
    || ((length key == 65) && starts_with 4 key)

is_point→IsPoint : (key : Bytes) → is_point key ≡ true → IsPoint key
unfolding is_point
is_point→IsPoint key h = elim (Bool-cases (starts_with 2 key)) [
  | inl two ↦ elim (Bool-cases (length key == 33)) [
    | inl l ↦ compressed_even (ground arith) two
    | inr l ↦ uncompressed (ground arith) (ground arith)
  ]
  | inr two ↦ elim (Bool-cases (length key == 33)) [
    | inl l ↦ compressed_odd (ground arith) (ground arith)
    | inr l ↦ uncompressed (ground arith) (ground arith)
  ]
]

module _ (c : Consts) where
  pub normalize-IsPoint : (key : Bytes) → IsPoint key → normalize_public_key c key ≡ ok key
  unfolding normalize_public_key
  normalize-IsPoint key (compressed_even l s) = ground arith
  normalize-IsPoint key (compressed_odd l s) = ground arith
  normalize-IsPoint key (uncompressed l s) = ground arith

  normalized_is_point :
      HasRawForm c
      → (key normalized : Bytes) → normalize_public_key c key ≡ ok normalized
      → is_point normalized ≡ true
  unfolding normalize_public_key starts_with is_point
  normalized_is_point raw key normalized h =
      ground (arith, raw.raw_length, raw.magic, length-append key [], append-nil key)

  -- A key that was normalized is a point, and normalizing it again leaves it as it is.
  pub normalize_public_key-IsPoint :
      HasRawForm c
      → (key normalized : Bytes) → normalize_public_key c key ≡ ok normalized
      → IsPoint normalized × (normalize_public_key c normalized ≡ ok normalized)
  normalize_public_key-IsPoint raw key normalized h =
      let point = is_point→IsPoint normalized (normalized_is_point raw key normalized h) in
      (point, normalize-IsPoint normalized point)
