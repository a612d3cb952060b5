-- ===== src/Stream/RoundTrip.antt =====
-- What is encrypted as a stream and decrypted as a stream is what was there.
use node_ecies_lib.Prelude.{
  ℕ, ◌+◌, ◌*◌, ◌^◌, ◌<◌, ◌≤◌, ◌≡◌, refl, sym, ap, ◌∙◌, Bool, ◌⊎◌, none, inl, inr, List, [], ◌++◌,
  length, length-append, take, take_all, All, eq→==, arith,
}
use node_ecies_lib.Buffer.{Bytes, concat}
use node_ecies_lib.Stream.Chunks.{
  EciesService, Yielded, source_loop, encrypt_stream, decrypt_loop, decrypt_stream,
}
use node_ecies_lib.Stream.Sealed.{IsPair}
use node_ecies_lib.Stream.Loops.{datas, IsStream, source_loop-IsStream}
use node_ecies_lib.Stream.Pieces.{
  datas-mark_last, last_piece, concat-last_piece, count-concat, ended, decrypt_loop-take,
}

module _ {R : Type 0} (ecies : EciesService R) (rand : ℕ → R) {public_key private_key : Bytes}
    (pair : IsPair ecies public_key private_key) where
  module _ (chunk_size : ℕ) (checksums : Bool) (source : List Bytes) where
    -- The keys have lengths that are accepted, no item of the source is too long, the chunk size is
    -- not 0 and no more than a message may have, and the source is short enough for its chunks to be counted in 32 bits.
    pub record IsStreamable : Type 0 where
      pub public_key_fits : (length public_key ≡ 65) ⊎ (length public_key ≡ 33)
      pub private_key_fits : length private_key ≡ 32
      pub items_fit : All (λ d. length d ≤ 100 * 1024 * 1024) source
      pub size_pos : 0 < chunk_size
      pub size_fits : chunk_size ≤ pair.limit
      pub countable : length (concat source) < 2 ^ 32

    encrypt_stream-clean :
        IsStreamable
        → (source_loop ecies rand public_key chunk_size checksums source [] 0).error ≡ none
        → (encrypt_stream ecies rand public_key chunk_size checksums source).error ≡ none
    unfolding encrypt_stream
    encrypt_stream-clean h e = elim h.public_key_fits [
      | inl k ↦ rw (eq→== (length public_key) 65 k, e) e
      | inr k ↦ ground (arith, e)
    ]

    pub encrypt_stream-datas :
        IsStreamable
        → (source_loop ecies rand public_key chunk_size checksums source [] 0).error ≡ none
        → datas (encrypt_stream ecies rand public_key chunk_size checksums source).items
          ≡ datas (source_loop ecies rand public_key chunk_size checksums source [] 0).items
    unfolding encrypt_stream
    encrypt_stream-datas h e =
        let y = source_loop ecies rand public_key chunk_size checksums source [] 0 in
        elim h.public_key_fits [
          | inl k ↦ rw (eq→== (length public_key) 65 k, e) (datas-mark_last y.items)
          | inr k ↦ ground (arith, e, datas-mark_last y.items)
        ]

    decrypt_stream-loop :
        IsStreamable
        → (chunks : List Bytes)
        → decrypt_stream ecies private_key chunks ≡ decrypt_loop ecies private_key chunks 0
    unfolding decrypt_stream
    decrypt_stream-loop h chunks = rw (eq→== (length private_key) 32 h.private_key_fits) refl

    -- A long enough cut is all of it.
    all_cuts :
        (ps chunks : List Bytes)
        → ((n : ℕ) → decrypt_stream ecies private_key (take n chunks) ≡ ended (take n ps))
        → decrypt_stream ecies private_key chunks ≡ ended ps
    all_cuts ps chunks cuts =
        let n = length chunks + length ps in
        ap (decrypt_stream ecies private_key) (sym (take_all chunks n (omega arith)))
        ∙ cuts n
        ∙ ap ended (take_all ps n (omega arith))

    pub source-IsStream :
        IsStreamable
        → IsStream ecies rand pair chunk_size checksums
            (concat source)
            0
            (source_loop ecies rand public_key chunk_size checksums source [] 0)
    source-IsStream h =
        source_loop-IsStream ecies rand pair chunk_size checksums source [] 0 h.size_pos h.size_fits
          h.items_fit h.size_pos (omega (arith, h.countable))

    stream_cuts :
        IsStreamable
        → ((encrypt_stream ecies rand public_key chunk_size checksums source).error ≡ none)
          × ((ps : List Bytes) × ((concat ps ≡ concat source)
                × ((n : ℕ)
                    → decrypt_stream ecies private_key (
                        take n (
                          datas
                            (encrypt_stream ecies rand public_key chunk_size checksums
                              source).items))
                      ≡ ended (take n ps))))
    stream_cuts h =
        let st = source-IsStream h in
        let j = 0 + length st.pieces in
        let few : j < 2 ^ 32 = omega (
          arith,
          h.countable,
          count-concat chunk_size st.pieces h.size_pos st.sized,
          ap length st.split,
          length-append (concat st.pieces) st.left,
        ) in
        (
          encrypt_stream-clean h st.clean,
          (
            st.pieces ++ last_piece st.left,
            (
              concat-last_piece st.pieces st.left ∙ st.split,
              λ n.
                  decrypt_stream-loop h _
                  ∙ ap (λ (t : List Bytes). decrypt_loop ecies private_key (take n t) 0)
                      (encrypt_stream-datas h st.clean ∙ st.chunks)
                  ∙ decrypt_loop-take ecies rand pair chunk_size h.size_pos h.size_fits n st.pieces
                      0 j st.left st.sized st.short refl few,
            ),
          ),
        )

    -- Of a streamable source, encryption yields chunks without an error, and decrypting their bytes
    -- yields without an error pieces that make up the source.
    pub decrypt_stream-encrypt_stream :
        IsStreamable
        → let y = encrypt_stream ecies rand public_key chunk_size checksums source in
          let z = decrypt_stream ecies private_key (datas y.items) in
          (y.error ≡ none) × (z.error ≡ none) × (concat z.items ≡ concat source)
    decrypt_stream-encrypt_stream h =
        let chunks =
          datas (encrypt_stream ecies rand public_key chunk_size checksums source).items in
        let (clean, (ps, (split, cuts))) = stream_cuts h in
        let whole : decrypt_stream ecies private_key chunks ≡ ended ps = all_cuts ps chunks cuts in
        (
          clean,
          ap (λ (y : Yielded Bytes). y.error) whole,
          ap (λ (y : Yielded Bytes). concat y.items) whole ∙ split,
        )

    -- Of the chunks of a streamable source, any number of first ones decrypt without an error, to as
    -- many first pieces: a stream that is cut off behind a chunk is not noticed.
    pub decrypt_stream-take :
        (n : ℕ)
        → IsStreamable
        → let chunks =
            datas (encrypt_stream ecies rand public_key chunk_size checksums source).items in
          decrypt_stream ecies private_key (take n chunks)
          ≡ record { items = take n (decrypt_stream ecies private_key chunks).items; error = none }
    decrypt_stream-take n h =
        let chunks =
          datas (encrypt_stream ecies rand public_key chunk_size checksums source).items in
        let (clean, (ps, (split, cuts))) = stream_cuts h in
        cuts n ∙ ap (λ (y : Yielded Bytes). ended (take n y.items)) (sym (all_cuts ps chunks cuts))
