-- ===== src/MultiRecipient/Overloads.antt =====
-- Both overloads of `decryptMultipleECIEForRecipient` are one function of a message.
use node_ecies_lib.Prelude.{ℕ, ◌+◌, ◌<◌, ◌≡◌, refl, Bool, Option, none, some, List, [], ◌∷◌, length}
use node_ecies_lib.Prelude.Int.{sub_ℕ}
use node_ecies_lib.Buffer.{Bytes}
use node_ecies_lib.Ecies.{Consts, IdProvider, PlatformId, buffer, uint8_array, other}
use node_ecies_lib.CryptoCore.{Node}
use node_ecies_lib.MultiRecipient.Header.{build_header}
use node_ecies_lib.MultiRecipient.Keys.{Crypto}
use node_ecies_lib.MultiRecipient.Sizes.{overhead-ok}
use node_ecies_lib.MultiRecipient.Encrypt.{
  Member, find_index, same_id, same_parts_id, decrypt_at, decrypt_multiple, decrypt_multiple_parts,
  check_parts_sender,
}
use node_ecies_lib.MultiChunk.Decrypt.{check_sender}

find_index_cong :
    {A : Type 0} (p q : A → Bool)
    → ((a : A) → p a ≡ q a)
    → (xs : List A) → find_index p xs ≡ find_index q xs
unfolding find_index
find_index_cong p q h [] = refl
find_index_cong p q h (x ∷ xs) = rw (h x, find_index_cong p q h xs) refl

same_parts_id-same_id :
    {T : Type 0} (ids : IdProvider T) (a b : PlatformId T) → same_parts_id ids a b ≡ same_id ids a b
unfolding same_parts_id same_id
same_parts_id-same_id ids (other a) b = refl
same_parts_id-same_id ids (buffer a) (other b) = refl
same_parts_id-same_id ids (uint8_array a) (other b) = refl
same_parts_id-same_id ids (buffer a) (buffer b) = refl
same_parts_id-same_id ids (buffer a) (uint8_array b) = refl
same_parts_id-same_id ids (uint8_array a) (buffer b) = refl
same_parts_id-same_id ids (uint8_array a) (uint8_array b) = refl

module _ {T : Type 0} (ids : IdProvider T) where
  searches :
      (id : PlatformId T) (all : List (PlatformId T))
      → find_index (λ x. same_parts_id ids x id) all ≡ find_index (λ x. same_id ids x id) all
  searches id all =
      find_index_cong (λ x. same_parts_id ids x id) (λ x. same_id ids x id)
        (λ x. same_parts_id-same_id ids x id) all

module _ (c : Consts) {T : Type 0} (ids : IdProvider T) (crypto : Crypto) {S : Type 0}
    (node : Node S) where
  -- For at least one recipient, the overload that takes the parts decrypts as the overload that
  -- takes a message does, of a message with these parts whose data length is that of the stored
  -- bytes without IV and tag, whatever size its header is said to have, and a member with the
  -- private key; they fail alike, too.
  pub decrypt_multiple_parts-decrypt_multiple :
      (stored : Bytes) (recipient_ids : List (PlatformId T)) (recipient_keys : List Bytes)
      (ephemeral private_key : Bytes) (me : Member T) (who : Option Bytes) (size : ℕ)
      → 0 < length recipient_ids
      → me.private_key ≡ some private_key
      → decrypt_multiple_parts c ids crypto node stored recipient_ids recipient_keys ephemeral me.id
          private_key who
        ≡ decrypt_multiple c ids crypto node
            (record {
              header = record {
                data_length = sub_ℕ (length stored) (c.iv_size + c.auth_tag_size);
                recipient_count = length recipient_ids;
                recipient_ids = recipient_ids;
                recipient_keys = recipient_keys;
                header_size = size;
                ephemeral_public_key = some ephemeral;
              };
              encrypted_message = stored;
            })
            me
            who
  unfolding decrypt_multiple_parts decrypt_multiple decrypt_at build_header check_sender
      check_parts_sender
  decrypt_multiple_parts-decrypt_multiple stored recipient_ids recipient_keys ephemeral private_key
        me none size some_recipient holds =
      rw
        (
          (overhead-ok c (length recipient_ids) recipient_keys some_recipient).1,
          searches ids me.id recipient_ids,
          holds,
        )
        refl
  decrypt_multiple_parts-decrypt_multiple stored recipient_ids recipient_keys ephemeral private_key
        me (some sender) size some_recipient holds =
      rw
        (
          (overhead-ok c (length recipient_ids) recipient_keys some_recipient).1,
          searches ids me.id recipient_ids,
          holds,
        )
        refl
