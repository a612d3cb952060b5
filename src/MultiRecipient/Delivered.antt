-- ===== src/MultiRecipient/Delivered.antt =====
-- `decrypt_multiple` undoes `encrypt_multiple`, for messages that are signed and that are not.
use node_ecies_lib.Prelude.{◌≡◌, refl, none, some, List, ◌++◌, length, append-nil}
use node_ecies_lib.Errors.{ok}
use node_ecies_lib.Buffer.{Bytes}
use node_ecies_lib.Ecies.{Consts, IsDocumented, IdProvider}
use node_ecies_lib.CryptoCore.{Node, get_public_key, sign}
use node_ecies_lib.CryptoCore.Agreement.{IsEcdsa}
use node_ecies_lib.MultiRecipient.Header.{Message}
use node_ecies_lib.MultiRecipient.Keys.{Crypto, IsGcm}
use node_ecies_lib.MultiRecipient.Encrypt.{Member, encrypt_multiple, decrypt_multiple}
use node_ecies_lib.MultiRecipient.Decrypted.{
  IsEncryptable, IsFound, decrypt_multiple-encrypt_multiple_checked,
}
use node_ecies_lib.MultiChunk.{ChunkDraw, signed_data}
use node_ecies_lib.MultiChunk.Decrypt.{check_sender}
use node_ecies_lib.MultiChunk.Sealed.{IsDocumentedChunk}
use node_ecies_lib.MultiChunk.Senders.{check_sender-signed}

module _ (c : Consts) (doc : IsDocumented c) (chunk_doc : IsDocumentedChunk c) {T : Type 0}
    (ids : IdProvider T) (crypto : Crypto) (gcm : IsGcm c crypto) {S : Type 0} (node : Node S)
    (r : ChunkDraw) (ephemeral message symmetric_key private_key secret : Bytes)
    (recipients : List (Member T)) (me : Member T)
    (found : IsFound ids crypto r ephemeral private_key secret recipients me) where
  -- A message that may be encrypted for its recipients, without a sender and without a preamble, is
  -- encrypted, and decrypted to itself by each member whose ID is found among them and whose key
  -- agrees.
  pub decrypt_multiple-encrypt_multiple :
      IsEncryptable c ids crypto r ephemeral message symmetric_key recipients
      → (m : Message T) × ((encrypt_multiple c ids crypto node r symmetric_key recipients message
              none none
            ≡ ok m)
          × (decrypt_multiple c ids crypto node m me none ≡ ok message))
  unfolding signed_data check_sender
  decrypt_multiple-encrypt_multiple fits =
      decrypt_multiple-encrypt_multiple_checked c doc chunk_doc ids crypto gcm node r ephemeral
        message message symmetric_key recipients none fits refl private_key secret me found none
        message refl

  -- A message that its sender signs with a signature of 64 bytes, where the two together may be
  -- encrypted for the recipients, is encrypted without a preamble, and decrypted to itself by each
  -- member whose ID is found among them and whose key agrees, who verifies the signature.
  pub decrypt_multiple-encrypt_multiple_signed :
      IsEcdsa node
      → (signature sender_private sender_public : Bytes)
      → IsEncryptable c ids crypto r ephemeral (signature ++ message) symmetric_key recipients
      → get_public_key c node sender_private ≡ ok sender_public
      → sign c node sender_private message ≡ ok signature
      → length signature ≡ 64
      → (m : Message T) × ((encrypt_multiple c ids crypto node r symmetric_key recipients message
              none
              (some sender_private)
            ≡ ok m)
          × (decrypt_multiple c ids crypto node m me (some sender_public) ≡ ok message))
  unfolding signed_data
  decrypt_multiple-encrypt_multiple_signed ecdsa signature sender_private sender_public fits key
        signed sized =
      decrypt_multiple-encrypt_multiple_checked c doc chunk_doc ids crypto gcm node r ephemeral
        message (signature ++ message) symmetric_key recipients (some sender_private) fits
        (rw (signed, append-nil message) refl) private_key secret me found (some sender_public)
        message
        (check_sender-signed c crypto node ecdsa message signature sender_private sender_public key
          signed sized)
