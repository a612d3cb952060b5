-- ===== src/CryptoCore/Tests.antt =====
-- The theorems on keys, secrets and signatures, at the stand-ins of Sample.
use node_ecies_lib.Prelude.{◌≡◌, refl, ◌∷◌, replicate}
use node_ecies_lib.Errors.{ok}
use node_ecies_lib.Ecies.Sample.{consts}
use node_ecies_lib.CryptoCore.{starts_with, normalize_public_key}
use node_ecies_lib.CryptoCore.Normal.{IsPoint, normalize_public_key-IsPoint}

raw_normalized : normalize_public_key consts (replicate 32 9) ≡ ok (2 ∷ replicate 32 9)
unfolding normalize_public_key starts_with
raw_normalized = refl

normalize_public_key-IsPoint_example :
    IsPoint (2 ∷ replicate 32 9)
    × (normalize_public_key consts (2 ∷ replicate 32 9) ≡ ok (2 ∷ replicate 32 9))
normalize_public_key-IsPoint_example =
    normalize_public_key-IsPoint consts (record { raw_length = refl; magic = refl })
      (replicate 32 9) (2 ∷ replicate 32 9) raw_normalized
