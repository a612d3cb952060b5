-- ===== src/MultiRecipient/Decrypted.antt =====
-- `decrypt_multiple` after `encrypt_multiple` without a preamble, whoever is said to be the sender.
use node_ecies_lib.Prelude.{
  ℕ, ◌+◌, ◌<◌, ◌≤◌, ◌≡◌, refl, sym, ap, ◌∙◌, min, false, Option, none, some, List, [], ◌++◌, length,
  length-map, map, get_elem?, All, eq→==, le→ltb, append-nil, arith,
}
use node_ecies_lib.Prelude.Int.{pos}
use node_ecies_lib.Errors.{Result, ok, value_or}
use node_ecies_lib.Buffer.{Bytes}
use node_ecies_lib.Ecies.{Consts, IsDocumented, IdProvider, id_bytes}
use node_ecies_lib.CryptoCore.{Node}
use node_ecies_lib.MultiRecipient.Header.{ParsedHeader, Message, overhead}
use node_ecies_lib.MultiRecipient.Sizes.{overhead-ok}
use node_ecies_lib.MultiRecipient.Layout.{layout, IsValidHeader, build_header-layout}
use node_ecies_lib.MultiRecipient.Keys.{
  Crypto, IsGcm, DoAgree, decrypt_key, decrypt_key-encrypt_key, cut_front, cut_middle, cut_back,
}
use node_ecies_lib.MultiRecipient.Encrypt.{
  Member, find_index, same_id, encrypt_multiple, decrypt_at, decrypt_multiple,
}
use node_ecies_lib.MultiChunk.{ChunkDraw, prefixed_key, signed_data}
use node_ecies_lib.MultiChunk.Decrypt.{check_sender}
use node_ecies_lib.MultiChunk.Sealed.{IsDocumentedChunk, CanReceive, key_for}
use node_ecies_lib.MultiRecipient.ForAll.{
  as_recipient, keys_of, length-keys_of, get_elem?-keys_of, encrypt_for_all_lem, keys_of-HaveLength,
  ids-HaveLength,
}

-- What may be encrypted for these recipients; `to_encrypt` is what is left of signing.
pub record IsEncryptable (c : Consts) {T : Type 0} (ids : IdProvider T) (crypto : Crypto)
    (r : ChunkDraw) (ephemeral to_encrypt symmetric_key : Bytes) (recipients : List (Member T))
    : Type 0 where
  pub some_recipient : 0 < length recipients
  pub recipients_fit : length recipients ≤ c.max_recipients
  pub size_fits : length to_encrypt ≤ c.max_raw_data_size
  pub size_allowed : length to_encrypt ≤ c.multiple_max_data_size
  pub id_size_fits : c.recipient_id_size < 256
  pub prefixed : prefixed_key c r.ephemeral_public ≡ ephemeral
  pub iv_sized : length r.iv ≡ c.iv_size
  pub ivs_sized : (i : ℕ) → length (r.key_ivs i) ≡ c.iv_size
  pub key_sized : length symmetric_key ≡ c.key_size
  pub receive :
      All
        (λ m. CanReceive c crypto r.ephemeral_private (as_recipient c ids crypto r symmetric_key m))
        recipients

-- The search for the recipient `me` finds the entry of a member with the same ID and the public key
-- of the private key of `me`.
pub record IsFound {T : Type 0} (ids : IdProvider T) (crypto : Crypto) (r : ChunkDraw)
    (ephemeral private_key secret : Bytes) (recipients : List (Member T)) (me : Member T)
    : Type 0 where
  pub index : ℕ
  pub entry : Member T
  pub holds : me.private_key ≡ some private_key
  pub finds : find_index (λ id. same_id ids id me.id) (map (λ m. m.id) recipients) ≡ some index
  pub stands : get_elem? recipients index ≡ some entry
  pub same_bytes : id_bytes ids entry.id ≡ id_bytes ids me.id
  pub agree : DoAgree crypto private_key entry.public_key r.ephemeral_private ephemeral secret

module _ (c : Consts) (doc : IsDocumented c) (chunk_doc : IsDocumentedChunk c) {T : Type 0}
    (ids : IdProvider T) (crypto : Crypto) (gcm : IsGcm c crypto) {S : Type 0} (node : Node S)
    (r : ChunkDraw) (ephemeral message to_encrypt symmetric_key : Bytes)
    (recipients : List (Member T)) (sender : Option Bytes)
    (fits : IsEncryptable c ids crypto r ephemeral to_encrypt symmetric_key recipients)
    (signed : signed_data c crypto node sender message ≡ ok to_encrypt) where
  abbrev header_for : ℕ → ParsedHeader T
  header_for size = record {
    data_length = pos (length to_encrypt);
    recipient_count = length recipients;
    recipient_ids = map (λ m. m.id) recipients;
    recipient_keys = keys_of c ids crypto r symmetric_key recipients 0;
    header_size = size;
    ephemeral_public_key = some ephemeral;
  }

  header-IsValidHeader :
      (size : ℕ) → IsValidHeader c ids (header_for size) (length to_encrypt) ephemeral
  header-IsValidHeader size = record {
    recipients_fit = omega (arith, fits.recipients_fit, length-map recipients (λ m. m.id));
    keys_match =
        length-map recipients (λ m. m.id)
        ∙ sym (length-keys_of c ids crypto r symmetric_key recipients 0);
    length_known = refl;
    length_fits = fits.size_fits;
    ephemeral_known = refl;
    id_size_fits = fits.id_size_fits;
    ids_sized =
        ids-HaveLength c ids crypto r symmetric_key chunk_doc gcm fits.ivs_sized fits.key_sized
          recipients fits.receive;
    keys_sized =
        keys_of-HaveLength c ids crypto r symmetric_key chunk_doc gcm fits.ivs_sized fits.key_sized
          recipients 0 fits.receive;
  }

  overhead_known :
      (size : ℕ) × (overhead c
          (length recipients)
          false
          (some (keys_of c ids crypto r symmetric_key recipients 0))
        ≡ ok size)
  overhead_known =
      overhead-ok c (length recipients) (keys_of c ids crypto r symmetric_key recipients 0)
        fits.some_recipient

  abbrev header_bytes : Bytes
  header_bytes =
      layout c ids ephemeral (length to_encrypt) (map (λ m. m.id) recipients)
        (keys_of c ids crypto r symmetric_key recipients 0)

  abbrev sealed : Bytes × Bytes
  sealed = crypto.cipher symmetric_key r.iv (some header_bytes) to_encrypt

  abbrev message_for : ℕ → Message T
  message_for size = record {
    header = header_for size;
    encrypted_message = r.iv ++ (sealed.1 ++ sealed.0);
  }

  encrypt_multiple-message :
      encrypt_multiple c ids crypto node r symmetric_key recipients message none sender
      ≡ ok (message_for overhead_known.0)
  unfolding encrypt_multiple
  encrypt_multiple-message =
      rw
        (
          le→ltb 65535 (length recipients) (omega (arith, fits.recipients_fit, doc.count_fits)),
          signed,
          le→ltb (min c.max_raw_data_size c.multiple_max_data_size) (length to_encrypt)
              (omega (arith, fits.size_fits, fits.size_allowed)),
          encrypt_for_all_lem c ids crypto r symmetric_key chunk_doc gcm fits.ivs_sized
              fits.key_sized recipients 0 fits.receive,
          overhead_known.1,
          fits.prefixed,
          build_header-layout c ids (header_for overhead_known.0) (length to_encrypt) ephemeral doc
              (header-IsValidHeader overhead_known.0),
          eq→== (length sealed.0) (length to_encrypt)
              (gcm.cipher_size symmetric_key r.iv (some header_bytes) to_encrypt),
          append-nil sealed.0,
        )
        refl

  module _ (private_key secret : Bytes) (me : Member T)
      (found : IsFound ids crypto r ephemeral private_key secret recipients me) (who : Option Bytes)
      (content : Bytes) (checked : check_sender c crypto node who to_encrypt ≡ ok content) where
    opens_entry :
        (index : ℕ)
        → decrypt_key c crypto private_key
            (key_for c crypto r symmetric_key
              (as_recipient c ids crypto r symmetric_key found.entry)
              index)
            ephemeral
            (some (id_bytes ids me.id))
          ≡ ok symmetric_key
    opens_entry index =
        let (e, (made, (_, read))) =
          decrypt_key-encrypt_key c crypto gcm private_key found.entry.public_key
            r.ephemeral_private ephemeral secret (r.key_ivs index) symmetric_key
            (some (id_bytes ids found.entry.id)) found.agree (fits.ivs_sized index)
            fits.key_sized in
        ap
          (λ (b : Bytes).
            decrypt_key c crypto private_key
              (key_for c crypto r symmetric_key
                (as_recipient c ids crypto r symmetric_key found.entry) index)
              ephemeral (some b))
          (sym found.same_bytes)
        ∙ ap
            (λ (x : Result Bytes).
              decrypt_key c crypto private_key (value_or x []) ephemeral
                (some (id_bytes ids found.entry.id)))
            made
        ∙ read

    decrypt_multiple-message :
        (size : ℕ) → decrypt_multiple c ids crypto node (message_for size) me who ≡ ok content
    unfolding decrypt_multiple decrypt_at
    decrypt_multiple-message size =
        let tag_sized = gcm.tag_size symmetric_key r.iv (some header_bytes) to_encrypt in
        rw
          (
            found.holds,
            found.finds,
            decrypt_at,
            get_elem?-keys_of c ids crypto r symmetric_key recipients 0 found.index found.entry
                found.stands,
            opens_entry (0 + found.index),
            build_header-layout c ids (header_for size) (length to_encrypt) ephemeral doc
                (header-IsValidHeader size),
            cut_front r.iv (sealed.1 ++ sealed.0) c.iv_size fits.iv_sized,
            cut_middle r.iv sealed.1 sealed.0 c.iv_size c.auth_tag_size fits.iv_sized tag_sized,
            cut_back r.iv sealed.1 sealed.0 c.iv_size c.auth_tag_size fits.iv_sized tag_sized,
            gcm.decipher-cipher symmetric_key r.iv (some header_bytes) to_encrypt,
            eq→== (length to_encrypt) (length to_encrypt) refl,
            checked,
          )
          refl

    -- A message that may be encrypted for its recipients, signed or not, without a preamble, is
    -- encrypted, and decrypted by each member who is found among them to what is left of it when
    -- the sender has been checked.
    pub decrypt_multiple-encrypt_multiple_checked :
        (m : Message T) × ((encrypt_multiple c ids crypto node r symmetric_key recipients message
              none sender
            ≡ ok m)
          × (decrypt_multiple c ids crypto node m me who ≡ ok content))
    decrypt_multiple-encrypt_multiple_checked = (
      message_for overhead_known.0,
      (encrypt_multiple-message, decrypt_multiple-message overhead_known.0),
    )
