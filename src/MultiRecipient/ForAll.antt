-- ===== src/MultiRecipient/ForAll.antt =====
-- The encrypted keys of `encrypt_multiple`, by recipient.
use node_ecies_lib.Prelude.{
  ℕ, zero, suc, ◌+◌, ◌≡◌, refl, ap, ◌∙◌, Option, none, some, List, [], ◌∷◌, length, map, get_elem?,
  All, eq→==, arith,
}
use node_ecies_lib.Errors.{ok}
use node_ecies_lib.Buffer.{Bytes}
use node_ecies_lib.Ecies.{Consts, IdProvider, id_bytes}
use node_ecies_lib.Stream.Multiple.{Recipient}
use node_ecies_lib.MultiRecipient.Layout.{HaveLength}
use node_ecies_lib.MultiRecipient.Keys.{Crypto, IsGcm}
use node_ecies_lib.MultiRecipient.Encrypt.{Member, encrypt_for_all}
use node_ecies_lib.MultiChunk.{ChunkDraw}
use node_ecies_lib.MultiChunk.Sealed.{IsDocumentedChunk, CanReceive, key_for, key_for_lem}

module _ (c : Consts) {T : Type 0} (ids : IdProvider T) (crypto : Crypto) (r : ChunkDraw)
    (symmetric_key : Bytes) where
  -- A member as the recipient of an encrypted key.
  abbrev pub as_recipient : Member T → Recipient
  as_recipient m = record { id = id_bytes ids m.id; public_key = m.public_key }

  abbrev pub keys_of : List (Member T) → ℕ → List Bytes
  keys_of [] i = []
  keys_of (m ∷ ms) i = key_for c crypto r symmetric_key (as_recipient m) i ∷ keys_of ms (suc i)

  pub length-keys_of : (ms : List (Member T)) (i : ℕ) → length (keys_of ms i) ≡ length ms
  length-keys_of [] i = refl
  length-keys_of (m ∷ ms) i = ap suc (length-keys_of ms (suc i))

  pub get_elem?-keys_of :
      (ms : List (Member T)) (i k : ℕ) (m : Member T)
      → get_elem? ms k ≡ some m
      → get_elem? (keys_of ms i) k
        ≡ some (key_for c crypto r symmetric_key (as_recipient m) (i + k))
  get_elem?-keys_of [] i k m h = cc
  get_elem?-keys_of (x ∷ ms) i zero m h =
      ap
        (λ (o : Option (Member T)). elim o [
          | none ↦ none
          | some y ↦ some (key_for c crypto r symmetric_key (as_recipient y) i)
        ])
        h
      ∙ ap (λ (j : ℕ). some (key_for c crypto r symmetric_key (as_recipient m) j)) {y = i + 0}
          (omega arith)
  get_elem?-keys_of (x ∷ ms) i (suc k) m h =
      get_elem?-keys_of ms (suc i) k m h
      ∙ ap (λ (j : ℕ). some (key_for c crypto r symmetric_key (as_recipient m) j)) {x = suc i + k}
          (omega arith)

  module _ (doc : IsDocumentedChunk c) (gcm : IsGcm c crypto)
      (ivs_sized : (i : ℕ) → length (r.key_ivs i) ≡ c.iv_size)
      (key_sized : length symmetric_key ≡ c.key_size) where
    pub encrypt_for_all_lem :
        (ms : List (Member T)) (i : ℕ)
        → All (λ m. CanReceive c crypto r.ephemeral_private (as_recipient m)) ms
        → encrypt_for_all c ids crypto r symmetric_key ms i ≡ ok (keys_of ms i)
    unfolding encrypt_for_all
    encrypt_for_all_lem [] i all = refl
    encrypt_for_all_lem (m ∷ ms) i (can, all) =
        rw
          (
            eq→== (length (id_bytes ids m.id)) c.recipient_id_size can.id_sized,
            (key_for_lem c crypto r symmetric_key doc gcm ivs_sized key_sized (as_recipient m) i
                can).0,
            encrypt_for_all_lem ms (suc i) all,
          )
          refl

    pub keys_of-HaveLength :
        (ms : List (Member T)) (i : ℕ)
        → All (λ m. CanReceive c crypto r.ephemeral_private (as_recipient m)) ms
        → HaveLength c.encrypted_key_size (keys_of ms i)
    keys_of-HaveLength [] i all = tt
    keys_of-HaveLength (m ∷ ms) i (can, all) = (
      (key_for_lem c crypto r symmetric_key doc gcm ivs_sized key_sized (as_recipient m) i can).1,
      keys_of-HaveLength ms (suc i) all,
    )

    pub ids-HaveLength :
        (ms : List (Member T))
        → All (λ m. CanReceive c crypto r.ephemeral_private (as_recipient m)) ms
        → HaveLength c.recipient_id_size (map (id_bytes ids) (map (λ m. m.id) ms))
    ids-HaveLength [] all = tt
    ids-HaveLength (m ∷ ms) (can, all) = (can.id_sized, ids-HaveLength ms all)
