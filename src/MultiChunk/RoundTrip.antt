-- ===== src/MultiChunk/RoundTrip.antt =====
-- `decrypt_chunk` undoes `encrypt_chunk`, for every recipient.
use node_ecies_lib.Prelude.{
  ℕ, ◌+◌, ◌<◌, ◌≡◌, refl, sym, ◌∙◌, Bool, true, Option, none, some, List, [], ◌++◌, length,
  length-append, append_assoc, append-nil, All, le→ltb, drop-append, arith,
}
use node_ecies_lib.Errors.{ok, ◌>>=◌}
use node_ecies_lib.Buffer.{Bytes, alloc, be_bytes, subarray_from}
use node_ecies_lib.Buffer.Laws.{length-be_bytes}
use node_ecies_lib.Buffer.Fields.{At, At-next, At-subarray, At-read}
use node_ecies_lib.Ecies.{Consts}
use node_ecies_lib.CryptoCore.{Node}
use node_ecies_lib.MultiRecipient.Keys.{Crypto, IsGcm, cut_front}
use node_ecies_lib.Stream.Multiple.{Recipient}
use node_ecies_lib.MultiChunk.{ChunkDraw, MultiRecipientChunk, signed_data, encrypt_chunk}
use node_ecies_lib.MultiChunk.Decrypt.{tag_start, decrypt_data, check_sender, decrypt_chunk}
use node_ecies_lib.MultiChunk.Written.{records_bytes}
use node_ecies_lib.MultiChunk.Sealed.{
  IsDocumentedChunk, CanReceive, IsChunkable, headers_of, headers_of-FitsRecord, chunk_header,
  header_bytes, length-header_bytes, encrypt_chunk-written,
}
use node_ecies_lib.MultiChunk.Lookup.{is_recipient, found_in, found_in-some, IsMine, find_key-At}

tag_start-add : (n size : ℕ) → size ≡ n + 16 → tag_start size ≡ n
unfolding tag_start
tag_start-add n size h = ground arith

pub back : (a b : Bytes) (n : ℕ) → length a ≡ n → subarray_from (a ++ b) n ≡ b
unfolding subarray_from
back a b n h = drop-append a b n h

module _ (c : Consts) (crypto : Crypto) (gcm : IsGcm c crypto) (doc : IsDocumentedChunk c) where
  -- The data of a chunk, behind its header's bytes.
  decrypt_data-sealed :
      (bytes key iv message : Bytes)
      → length iv ≡ 12
      → let sealed = crypto.cipher key iv (some bytes) message in
        decrypt_data c crypto
          (bytes ++ (iv ++ (sealed.0 ++ sealed.1)))
          (some key)
          (length bytes)
          (length message + 16)
        ≡ ok message
  unfolding decrypt_data
  decrypt_data-sealed bytes key iv message iv_sized =
      let sealed = crypto.cipher key iv (some bytes) message in
      let data_ = bytes ++ (iv ++ (sealed.0 ++ sealed.1)) in
      let body_sized = gcm.cipher_size key iv (some bytes) message in
      let tag_sized : length sealed.1 ≡ 16 =
        gcm.tag_size key iv (some bytes) message ∙ doc.tag_sixteen in
      let both : length (sealed.0 ++ sealed.1) ≡ length message + 16 =
        omega (arith, length-append sealed.0 sealed.1, body_sized, tag_sized) in
      let at0 : At data_ 0 data_ = record { at = refl } in
      let at_iv : At data_ (length bytes) (iv ++ (sealed.0 ++ sealed.1)) = record {
        at = drop-append bytes (iv ++ (sealed.0 ++ sealed.1)) (length bytes) refl;
      } in
      let at_data : At data_ (length bytes + 12) ((sealed.0 ++ sealed.1) ++ []) = record {
        at = (At-next iv (sealed.0 ++ sealed.1) 12 at_iv iv_sized).at ∙ sym (append-nil _);
      } in
      rw
        (
          decrypt_data,
          At-subarray iv (sealed.0 ++ sealed.1) 12 at_iv iv_sized,
          At-subarray (sealed.0 ++ sealed.1) [] (length message + 16) at_data both,
          tag_start-add (length message) (length (sealed.0 ++ sealed.1)) both,
          cut_front bytes (iv ++ (sealed.0 ++ sealed.1)) (length bytes) refl,
          cut_front sealed.0 sealed.1 (length message) body_sized,
          back sealed.0 sealed.1 (length message) body_sized,
        )
        (gcm.decipher-cipher key iv (some bytes) message)

  module _ {S : Type 0} (node : Node S) (r : ChunkDraw)
      (ephemeral to_encrypt symmetric_key id private_key secret : Bytes)
      (recipients : List Recipient) (index : ℕ) (is_last : Bool)
      (fits : IsChunkable c r ephemeral to_encrypt symmetric_key recipients index)
      (can : All (CanReceive c crypto r.ephemeral_private) recipients)
      (mine : All
        (IsMine c crypto gcm r symmetric_key ephemeral id private_key secret fits.ivs_sized
          fits.key_sized)
        recipients) where
    -- What decryption makes of the bytes of a chunk.
    pub decrypt_chunk-written :
        (sender : Option Bytes)
        → let header = chunk_header c (length recipients) index is_last (length to_encrypt) in
          let bytes =
            header_bytes header ephemeral (headers_of c crypto r symmetric_key recipients 0) in
          let sealed = crypto.cipher symmetric_key r.iv (some bytes) to_encrypt in
          let data_ = bytes ++ (r.iv ++ (sealed.0 ++ sealed.1)) in
          decrypt_chunk c crypto node data_ id private_key sender ≡ (
            decrypt_data c crypto data_
              (found_in id symmetric_key recipients none)
              (length bytes)
              (length to_encrypt + 16)
            >>= λ message.
                check_sender c crypto node sender message >>= λ content. ok (content, header))
    unfolding decrypt_chunk
    decrypt_chunk-written sender =
        let header = chunk_header c (length recipients) index is_last (length to_encrypt) in
        let hs = headers_of c crypto r symmetric_key recipients 0 in
        let bytes = header_bytes header ephemeral hs in
        let sealed = crypto.cipher symmetric_key r.iv (some bytes) to_encrypt in
        let behind = r.iv ++ (sealed.0 ++ sealed.1) in
        let data_ = bytes ++ behind in
        let f8 = ephemeral ++ (alloc 10 ++ (records_bytes hs ++ behind)) in
        let f7 = be_bytes 1 header.flags ++ f8 in
        let f6 = be_bytes 4 header.encrypted_size ++ f7 in
        let f5 = be_bytes 4 header.original_size ++ f6 in
        let f4 = be_bytes 4 header.chunk_index ++ f5 in
        let f3 = be_bytes 2 header.recipient_count ++ f4 in
        let f2 = be_bytes 2 header.version ++ f3 in
        let at0 : At data_ 0 (be_bytes 4 header.magic ++ f2) = record { at = simp append_assoc } in
        let at4 = At-next (be_bytes 4 header.magic) f2 4 at0 (length-be_bytes 4 _) in
        let at6 = At-next (be_bytes 2 header.version) f3 2 at4 (length-be_bytes 2 _) in
        let at8 = At-next (be_bytes 2 header.recipient_count) f4 2 at6 (length-be_bytes 2 _) in
        let at12 = At-next (be_bytes 4 header.chunk_index) f5 4 at8 (length-be_bytes 4 _) in
        let at16 = At-next (be_bytes 4 header.original_size) f6 4 at12 (length-be_bytes 4 _) in
        let at20 = At-next (be_bytes 4 header.encrypted_size) f7 4 at16 (length-be_bytes 4 _) in
        let at21 = At-next (be_bytes 1 header.flags) f8 1 at20 (length-be_bytes 1 _) in
        let at54 =
          At-next ephemeral (alloc 10 ++ (records_bytes hs ++ behind)) 33 at21
            fits.ephemeral_sized in
        let at64 = At-next (alloc 10) (records_bytes hs ++ behind) 10 at54 refl in
        let at_end : 64 + length (records_bytes hs) ≡ length bytes =
          sym (length-header_bytes header ephemeral hs fits.ephemeral_sized) in
        let flag_fits : header.flags < 256 = ground arith in
        let fit =
          headers_of-FitsRecord c crypto r symmetric_key doc gcm fits.ivs_sized fits.key_sized
            recipients 0 can in
        rw
          (
            le→ltb (length data_) 64 (omega (arith, length-append bytes behind, at_end)),
            At-read 4 header.magic f2 (omega arith) (omega arith) at0,
            At-read 2 header.version f3 (omega arith) (omega arith) at4,
            At-read 2 header.recipient_count f4 (omega arith) fits.recipients_fit at6,
            At-read 4 header.chunk_index f5 (omega arith) fits.index_fits at8,
            At-read 4 header.original_size f6 (omega arith) (omega (arith, fits.size_fits)) at12,
            At-read 4 header.encrypted_size f7 (omega arith) fits.size_fits at16,
            At-read 1 header.flags f8 (omega arith) flag_fits at20,
            At-subarray ephemeral (alloc 10 ++ (records_bytes hs ++ behind)) 33 at21
                fits.ephemeral_sized,
            find_key-At c crypto gcm r symmetric_key ephemeral id private_key secret fits.ivs_sized
                fits.key_sized data_ recipients 0 64 behind none mine fit at64,
            at_end,
          )
          refl

    pub opened :
        (sender : Option Bytes) (content : Bytes)
        → is_recipient id recipients ≡ true
        → check_sender c crypto node sender to_encrypt ≡ ok content
        → let header = chunk_header c (length recipients) index is_last (length to_encrypt) in
          let bytes =
            header_bytes header ephemeral (headers_of c crypto r symmetric_key recipients 0) in
          let sealed = crypto.cipher symmetric_key r.iv (some bytes) to_encrypt in
          decrypt_chunk c crypto node
            (bytes ++ (r.iv ++ (sealed.0 ++ sealed.1)))
            id
            private_key
            sender
          ≡ ok (content, header)
    opened sender content listed checked =
        let header = chunk_header c (length recipients) index is_last (length to_encrypt) in
        let bytes =
          header_bytes header ephemeral (headers_of c crypto r symmetric_key recipients 0) in
        decrypt_chunk-written sender
        ∙ rw
            (
              found_in-some id symmetric_key recipients none listed,
              decrypt_data-sealed bytes symmetric_key r.iv to_encrypt fits.iv_sized,
              checked,
            )
            refl

    -- A chunk without a sender is encrypted, and decrypted by each of its recipients to the data and
    -- the header that encryption returns.
    pub decrypt_chunk-encrypt_chunk :
        is_recipient id recipients ≡ true
        → (chunk : MultiRecipientChunk) × ((encrypt_chunk c crypto node r to_encrypt recipients
                index is_last symmetric_key none
              ≡ ok chunk)
            × (decrypt_chunk c crypto node chunk.data_ id private_key none
                ≡ ok (to_encrypt, chunk.header)))
    unfolding signed_data check_sender
    decrypt_chunk-encrypt_chunk listed = (
      _,
      (
        encrypt_chunk-written c crypto node doc gcm r ephemeral to_encrypt to_encrypt symmetric_key
            recipients index is_last none fits can refl,
        opened none to_encrypt listed refl,
      ),
    )
