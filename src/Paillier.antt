-- ===== src/Paillier.antt =====
-- The Paillier keys of paillier-bigint, which is not part of the repository. `C` is the type of
-- ciphertexts and `R` that of the randomness of one encryption. The laws are the documented
-- homomorphic property of the scheme.
use node_ecies_lib.Prelude.{ℕ, ◌+◌, ◌%◌, ◌<◌, ◌≡◌}

pub record Paillier (C R : Type 0) : Type 0 where
  pub modulus : ℕ
  pub encrypt : R → ℕ → C
  pub addition : C → C → C
  pub decrypt : C → ℕ

pub record IsHomomorphic {C R : Type 0} (k : Paillier C R) : Type 0 where
  pub modulus_pos : 0 < k.modulus
  pub decrypt-encrypt : (r : R) (m : ℕ) → k.decrypt (k.encrypt r m) ≡ m % k.modulus
  pub decrypt-addition :
      (a b : C) → k.decrypt (k.addition a b) ≡ (k.decrypt a + k.decrypt b) % k.modulus
  pub decrypt-lt : (a : C) → k.decrypt a < k.modulus
