-- ===== src/MultiChunk/Senders.antt =====
-- Chunks that are decrypted by someone who is no recipient, and chunks that are signed.
use node_ecies_lib.Prelude.{
  ℕ, ◌≡◌, refl, ◌∙◌, Bool, true, false, none, some, List, [], ◌∷◌, ◌++◌, length, length-append,
  append-nil, All, le→ltb, arith,
}
use node_ecies_lib.Errors.{ok, err, recipient_not_found}
use node_ecies_lib.Buffer.{Bytes}
use node_ecies_lib.Ecies.{Consts}
use node_ecies_lib.CryptoCore.{Node, get_public_key, sign}
use node_ecies_lib.CryptoCore.Agreement.{IsEcdsa, verify-sign}
use node_ecies_lib.MultiRecipient.Keys.{Crypto, IsGcm, cut_front}
use node_ecies_lib.Stream.Multiple.{Recipient}
use node_ecies_lib.MultiChunk.{ChunkDraw, MultiRecipientChunk, signed_data, encrypt_chunk}
use node_ecies_lib.MultiChunk.Decrypt.{decrypt_data, check_sender, decrypt_chunk}
use node_ecies_lib.MultiChunk.Sealed.{
  IsDocumentedChunk, CanReceive, IsChunkable, encrypt_chunk-written,
}
use node_ecies_lib.MultiChunk.RoundTrip.{back, decrypt_chunk-written, opened}
use node_ecies_lib.MultiChunk.Lookup.{is_recipient, found_in-none, IsMine}

module _ (c : Consts) (crypto : Crypto) (gcm : IsGcm c crypto) (doc : IsDocumentedChunk c)
    {S : Type 0} (node : Node S) (r : ChunkDraw)
    (ephemeral to_encrypt symmetric_key id private_key : Bytes) (recipients : List Recipient)
    (index : ℕ) (is_last : Bool)
    (fits : IsChunkable c r ephemeral to_encrypt symmetric_key recipients index)
    (can : All (CanReceive c crypto r.ephemeral_private) recipients) where
  unlisted-IsMine :
      (rs : List Recipient)
      → is_recipient id rs ≡ false
      → All
          (IsMine c crypto gcm r symmetric_key ephemeral id private_key [] fits.ivs_sized
            fits.key_sized)
          rs
  unlisted-IsMine [] h = tt
  unlisted-IsMine (x ∷ rs) h = (λ e. absurd (ground arith), unlisted-IsMine rs (ground arith))

  -- Whoever is not a recipient cannot decrypt the chunk, whatever the private key.
  pub decrypt_chunk-not_found :
      is_recipient id recipients ≡ false
      → (chunk : MultiRecipientChunk) × ((encrypt_chunk c crypto node r to_encrypt recipients index
              is_last symmetric_key none
            ≡ ok chunk)
          × (decrypt_chunk c crypto node chunk.data_ id private_key none ≡ err recipient_not_found))
  unfolding signed_data decrypt_data
  decrypt_chunk-not_found unlisted = (
    _,
    (
      encrypt_chunk-written c crypto node doc gcm r ephemeral to_encrypt to_encrypt symmetric_key
          recipients index is_last none fits can refl,
      decrypt_chunk-written c crypto gcm doc node r ephemeral to_encrypt symmetric_key id
            private_key [] recipients index is_last fits can (unlisted-IsMine recipients unlisted)
            none
          ∙ rw (found_in-none id symmetric_key recipients none unlisted, decrypt_data) refl,
    ),
  )

-- What was signed passes the check of the sender, who is taken off.
pub check_sender-signed :
    (c : Consts) (crypto : Crypto) {S : Type 0} (node : Node S)
    → IsEcdsa node
    → (data_ signature sender_private sender_public : Bytes)
    → get_public_key c node sender_private ≡ ok sender_public
    → sign c node sender_private data_ ≡ ok signature
    → length signature ≡ 64
    → check_sender c crypto node (some sender_public) (signature ++ data_) ≡ ok data_
unfolding check_sender
check_sender-signed c crypto node ecdsa data_ signature sender_private sender_public key signed
      sized =
    rw
      (
        le→ltb (length (signature ++ data_)) 64
            (omega (arith, length-append signature data_, sized)),
        cut_front signature data_ 64 sized,
        back signature data_ 64 sized,
        verify-sign c node ecdsa sender_private sender_public data_ signature key signed,
      )
      refl

module _ (c : Consts) (crypto : Crypto) (gcm : IsGcm c crypto) (doc : IsDocumentedChunk c)
    {S : Type 0} (node : Node S) (ecdsa : IsEcdsa node) (r : ChunkDraw)
    (ephemeral data_ signature sender_private sender_public symmetric_key id private_key
      secret : Bytes)
    (recipients : List Recipient) (index : ℕ) (is_last : Bool)
    (fits : IsChunkable c r ephemeral (signature ++ data_) symmetric_key recipients index)
    (can : All (CanReceive c crypto r.ephemeral_private) recipients)
    (mine : All
      (IsMine c crypto gcm r symmetric_key ephemeral id private_key secret fits.ivs_sized
        fits.key_sized)
      recipients) where
  -- A chunk that its sender signs is decrypted by each of its recipients, who verify the signature, to
  -- the data and the header that encryption returns.
  pub decrypt_chunk-encrypt_chunk_signed :
      is_recipient id recipients ≡ true
      → get_public_key c node sender_private ≡ ok sender_public
      → sign c node sender_private data_ ≡ ok signature
      → length signature ≡ 64
      → (chunk : MultiRecipientChunk) × ((encrypt_chunk c crypto node r data_ recipients index
              is_last symmetric_key
              (some sender_private)
            ≡ ok chunk)
          × (decrypt_chunk c crypto node chunk.data_ id private_key (some sender_public)
              ≡ ok (data_, chunk.header)))
  unfolding signed_data
  decrypt_chunk-encrypt_chunk_signed listed key signed sized =
      let to_encrypt = signature ++ data_ in
      let checked =
        check_sender-signed c crypto node ecdsa data_ signature sender_private sender_public key
          signed sized in
      (
        _,
        (
          encrypt_chunk-written c crypto node doc gcm r ephemeral data_ to_encrypt symmetric_key
              recipients index is_last (some sender_private) fits can
              (rw (signed, append-nil data_) refl),
          opened c crypto gcm doc node r ephemeral to_encrypt symmetric_key id private_key secret
              recipients index is_last fits can mine (some sender_public) data_ listed checked,
        ),
      )
