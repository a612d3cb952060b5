-- ===== src/MultiChunk/Sealed.antt =====
-- What `encrypt_chunk` returns, for recipients that can receive.
use node_ecies_lib.Prelude.{
  ℕ, suc, ◌+◌, ◌-◌, ◌^◌, ◌<◌, ◌≤◌, ◌≡◌, refl, sym, ap, ◌∙◌, Bool, Option, some, List, [], ◌∷◌, ◌++◌,
  length, length-append, append_assoc, append-nil, le→ltb, All, take-append, if◌then◌else◌, arith,
}
use node_ecies_lib.Errors.{ok, value_or}
use node_ecies_lib.Buffer.{Bytes, alloc, subarray}
use node_ecies_lib.Buffer.Laws.{alloc-add}
use node_ecies_lib.Ecies.{Consts}
use node_ecies_lib.CryptoCore.{Node}
use node_ecies_lib.MultiRecipient.Keys.{Crypto, IsGcm, encrypt_key}
use node_ecies_lib.Stream.Multiple.{Recipient}
use node_ecies_lib.VoteLog.Entry.{copy_to}
use node_ecies_lib.MultiChunk.{
  ChunkHeader, ChunkDraw, RecipientHeader, magic, version, header_size, flag_is_last, prefixed_key,
  signed_data, encrypt_keys, write_recipients, encrypt_chunk,
}
use node_ecies_lib.MultiChunk.Written.{
  FitsHeader, FitsRecord, fixed_bytes, records_bytes, copy-zeros, length-fixed_bytes,
  write_fixed-alloc, recipient_headers_size-records, write_recipients-alloc,
}

-- The sizes that the chunk format takes for granted.
pub record IsDocumentedChunk (c : Consts) : Type 0 where
  pub iv_twelve : c.iv_size ≡ 12
  pub tag_sixteen : c.auth_tag_size ≡ 16
  pub key_fits : c.encrypted_key_size < 2 ^ 16

-- A recipient with an ID of the configured size, with whose public key the ephemeral key makes a
-- secret.
pub record CanReceive (c : Consts) (crypto : Crypto) (ephemeral_private : Bytes)
    (recipient : Recipient) : Type 0 where
  pub id_sized : length recipient.id ≡ c.recipient_id_size
  pub normalized : Bytes
  pub secret : Bytes
  pub normalizes : crypto.normalize_public_key recipient.public_key ≡ ok normalized
  pub agrees : crypto.compute_secret ephemeral_private normalized ≡ ok secret

module _ (c : Consts) (crypto : Crypto) (r : ChunkDraw) (symmetric_key : Bytes) where
  abbrev pub key_for : Recipient → ℕ → Bytes
  key_for recipient i =
      value_or
        (encrypt_key c crypto (r.key_ivs i) recipient.public_key symmetric_key r.ephemeral_private
          (some recipient.id))
        []

  -- The headers of the recipients, from the one with the number `i` on.
  abbrev pub headers_of : List Recipient → ℕ → List RecipientHeader
  headers_of [] i = []
  headers_of (recipient ∷ recipients) i =
      record { id = recipient.id; encrypted_key = key_for recipient i }
      ∷ headers_of recipients (suc i)

  pub length-headers_of : (rs : List Recipient) (i : ℕ) → length (headers_of rs i) ≡ length rs
  length-headers_of [] i = refl
  length-headers_of (x ∷ rs) i = ap suc (length-headers_of rs (suc i))

  module _ (doc : IsDocumentedChunk c) (gcm : IsGcm c crypto)
      (ivs_sized : (i : ℕ) → length (r.key_ivs i) ≡ c.iv_size)
      (key_sized : length symmetric_key ≡ c.key_size) where
    pub key_for_lem :
        (recipient : Recipient) (i : ℕ)
        → CanReceive c crypto r.ephemeral_private recipient
        → (encrypt_key c crypto
              (r.key_ivs i)
              recipient.public_key
              symmetric_key
              r.ephemeral_private
              (some recipient.id)
            ≡ ok (key_for recipient i))
          × (length (key_for recipient i) ≡ c.encrypted_key_size)
    unfolding encrypt_key
    key_for_lem recipient i can =
        let key = crypto.derive_shared_key can.secret in
        let sealed = crypto.cipher key (r.key_ivs i) (some recipient.id) symmetric_key in
        rw (can.normalizes, can.agrees)
          (
            refl,
            omega (
              arith,
              length-append (r.key_ivs i) (sealed.1 ++ sealed.0),
              length-append sealed.1 sealed.0,
              ivs_sized i,
              key_sized,
              gcm.tag_size key (r.key_ivs i) (some recipient.id) symmetric_key,
              gcm.cipher_size key (r.key_ivs i) (some recipient.id) symmetric_key,
              gcm.sizes,
            ),
          )

    pub encrypt_keys_lem :
        (rs : List Recipient) (i : ℕ)
        → All (CanReceive c crypto r.ephemeral_private) rs
        → encrypt_keys c crypto r symmetric_key rs i ≡ ok (headers_of rs i)
    unfolding encrypt_keys
    encrypt_keys_lem [] i all = refl
    encrypt_keys_lem (x ∷ rs) i (can, all) =
        rw ((key_for_lem x i can).0, encrypt_keys_lem rs (suc i) all) refl

    pub headers_of-FitsRecord :
        (rs : List Recipient) (i : ℕ)
        → All (CanReceive c crypto r.ephemeral_private) rs
        → All (FitsRecord c) (headers_of rs i)
    headers_of-FitsRecord [] i all = tt
    headers_of-FitsRecord (x ∷ rs) i (can, all) = (
      record {
        id_sized = can.id_sized;
        key_fits = omega (arith, (key_for_lem x i can).1, doc.key_fits);
      },
      headers_of-FitsRecord rs (suc i) all,
    )

module _ (c : Consts) where
  -- The header of a chunk, as its caller gets it.
  abbrev pub chunk_header : ℕ → ℕ → Bool → ℕ → ChunkHeader
  chunk_header count index is_last size = record {
    chunk_index = index;
    flags = if is_last then flag_is_last else 0;
    recipient_count = count;
    magic = magic;
    version = version;
    original_size = size;
    encrypted_size = size + 16;
  }

-- The header's bytes, up to the IV.
abbrev pub header_bytes : ChunkHeader → Bytes → List RecipientHeader → Bytes
header_bytes h ephemeral hs = (fixed_bytes h ephemeral ++ alloc 10) ++ records_bytes hs

pub length-header_bytes :
    (h : ChunkHeader) (ephemeral : Bytes) (hs : List RecipientHeader)
    → length ephemeral ≡ 33
    → length (header_bytes h ephemeral hs) ≡ 64 + length (records_bytes hs)
length-header_bytes h ephemeral hs sized = omega (
  arith,
  length-append (fixed_bytes h ephemeral ++ alloc 10) (records_bytes hs),
  length-append (fixed_bytes h ephemeral) (alloc 10),
  length-fixed_bytes h ephemeral,
)

-- What may be encrypted in one chunk: `data_` is what is left of signing.
pub record IsChunkable (c : Consts) (r : ChunkDraw) (ephemeral data_ symmetric_key : Bytes)
    (recipients : List Recipient) (index : ℕ) : Type 0 where
  pub index_fits : index < 2 ^ 32
  pub size_fits : length data_ + 16 < 2 ^ 32
  pub allowed : length data_ ≤ c.max_raw_data_size
  pub recipients_fit : length recipients < 2 ^ 16
  pub prefixed : prefixed_key c r.ephemeral_public ≡ ephemeral
  pub ephemeral_sized : length ephemeral ≡ 33
  pub iv_sized : length r.iv ≡ 12
  pub ivs_sized : (i : ℕ) → length (r.key_ivs i) ≡ c.iv_size
  pub key_sized : length symmetric_key ≡ c.key_size

front : (b : Bytes) (n at : ℕ) → at ≡ length b → subarray (b ++ alloc n) 0 at ≡ b
unfolding subarray
front b n at h = take-append b (alloc n) (at - 0) (omega (arith, h))

-- The IV, the ciphertext and the tag, behind the header.
data_written :
    (b iv body tag : Bytes) (at after : ℕ)
    → at ≡ length b
    → length iv ≡ 12
    → after ≡ 12 + (length body + length tag)
    → copy_to
        (copy_to (copy_to (b ++ alloc after) at iv) (at + 12) body)
        (at + 12 + length body)
        tag
      ≡ b ++ (iv ++ (body ++ tag))
data_written b iv body tag at after here iv_sized sized =
    rw
      (
        copy-zeros b iv (length body + length tag) at after here (omega (arith, sized, iv_sized)),
        copy-zeros (b ++ iv) body (length tag) (at + 12) (length body + length tag)
            (omega (arith, here, iv_sized, length-append b iv)) refl,
        copy-zeros ((b ++ iv) ++ body) tag 0 (at + 12 + length body) (length tag)
            (omega (arith, here, iv_sized, length-append b iv, length-append (b ++ iv) body))
            (omega arith),
      )
      (simp (append_assoc, append-nil))

module _ (c : Consts) (crypto : Crypto) {S : Type 0} (node : Node S) (doc : IsDocumentedChunk c)
    (gcm : IsGcm c crypto) (r : ChunkDraw) (ephemeral data_ to_encrypt symmetric_key : Bytes)
    (recipients : List Recipient) (index : ℕ) (is_last : Bool) (sender : Option Bytes)
    (fits : IsChunkable c r ephemeral to_encrypt symmetric_key recipients index) where
  abbrev pub header_here : ChunkHeader
  header_here = chunk_header c (length recipients) index is_last (length to_encrypt)

  abbrev pub bytes_here : Bytes
  bytes_here = header_bytes header_here ephemeral (headers_of c crypto r symmetric_key recipients 0)

  abbrev pub sealed_here : Bytes × Bytes
  sealed_here = crypto.cipher symmetric_key r.iv (some bytes_here) to_encrypt

  header-FitsHeader : FitsHeader header_here
  header-FitsHeader = record {
    magic_fits = omega arith;
    version_fits = omega arith;
    count_fits = fits.recipients_fit;
    index_fits = fits.index_fits;
    original_fits = omega (arith, fits.size_fits);
    encrypted_fits = fits.size_fits;
    flags_fit = ground arith;
  }

  recipients_written :
      All (CanReceive c crypto r.ephemeral_private) recipients
      → let hs = headers_of c crypto r symmetric_key recipients 0 in
        let records = length (records_bytes hs) in
        let after = 12 + (length to_encrypt + 16) in
        write_recipients c hs
          (fixed_bytes header_here ephemeral ++ alloc (10 + (records + after)))
          header_size
        ≡ ok (bytes_here ++ alloc after, 64 + records)
  recipients_written can =
      let hs = headers_of c crypto r symmetric_key recipients 0 in
      let records = length (records_bytes hs) in
      let after = 12 + (length to_encrypt + 16) in
      let fixed = fixed_bytes header_here ephemeral in
      ap (λ (b : Bytes). write_recipients c hs b 64)
        (ap (λ (b : Bytes). fixed ++ b) (alloc-add 10 (records + after))
          ∙ sym (append_assoc fixed (alloc 10) (alloc (records + after))))
      ∙ write_recipients-alloc c hs (fixed ++ alloc 10) after 64 (records + after)
          (headers_of-FitsRecord c crypto r symmetric_key doc gcm fits.ivs_sized fits.key_sized
            recipients 0 can)
          (omega (
            arith,
            length-append fixed (alloc 10),
            length-fixed_bytes header_here ephemeral,
            fits.ephemeral_sized,
          ))
          refl

  pub encrypt_chunk-written :
      All (CanReceive c crypto r.ephemeral_private) recipients
      → signed_data c crypto node sender data_ ≡ ok to_encrypt
      → encrypt_chunk c crypto node r data_ recipients index is_last symmetric_key sender
        ≡ ok (record {
          header = header_here;
          data_ = bytes_here ++ (r.iv ++ (sealed_here.0 ++ sealed_here.1));
        })
  unfolding encrypt_chunk
  encrypt_chunk-written can signed =
      let hs = headers_of c crypto r symmetric_key recipients 0 in
      let fit =
        headers_of-FitsRecord c crypto r symmetric_key doc gcm fits.ivs_sized fits.key_sized
          recipients 0 can in
      let size = length to_encrypt in
      let records = length (records_bytes hs) in
      let after = 12 + (size + 16) in
      let at = 64 + records in
      let length_here : at ≡ length bytes_here =
        sym (length-header_bytes header_here ephemeral hs fits.ephemeral_sized) in
      rw
        (
          le→ltb 0xffffffff index (omega (arith, fits.index_fits)),
          signed,
          le→ltb c.max_raw_data_size size fits.allowed,
          fits.prefixed,
          encrypt_keys_lem c crypto r symmetric_key doc gcm fits.ivs_sized fits.key_sized recipients
              0 can,
          recipient_headers_size-records c hs 0 fit,
          write_fixed-alloc header_here ephemeral (10 + (records + after))
              (64 + (0 + records) + 12 + (size + 16)) (omega arith) header-FitsHeader
              fits.ephemeral_sized,
        )
        (rw
          (
            recipients_written can,
            front bytes_here after at length_here,
            data_written bytes_here r.iv sealed_here.0 sealed_here.1 at after length_here
                fits.iv_sized
                (omega (
                  arith,
                  gcm.cipher_size symmetric_key r.iv (some bytes_here) to_encrypt,
                  gcm.tag_size symmetric_key r.iv (some bytes_here) to_encrypt,
                  doc.tag_sixteen,
                )),
          )
          refl)
