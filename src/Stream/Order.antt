-- ===== src/Stream/Order.antt =====
-- Which chunks `decrypt_stream` accepts, and which of them are marked as the last.
use Prim.Native.Nat.{bit_and}
use native.Mathlib.Nat.{mod-eq_of_lt, mul-add-mod_self_left}
use node_ecies_lib.Prelude.{
  ℕ, suc, ◌+◌, ◌*◌, ◌%◌, ◌<◌, ◌≡◌, refl, sym, ap, subst, ◌∙◌, Bool, List, [], ◌∷◌, ◌++◌, length,
  length-append, append-nil, All, ◌==◌, ==_iff, Bool-cases, inl, inr, arith,
}
use node_ecies_lib.Errors.{ok, Result-cases}
use node_ecies_lib.Buffer.{Bytes, concat, be_bytes, read_uint_be, subarray_from}
use node_ecies_lib.Buffer.Laws.{length-be_bytes}
use node_ecies_lib.Buffer.Fields.{At, At-next}
use node_ecies_lib.Stream.Chunks.{
  EciesService, DecryptedChunk, decrypt_chunk, encrypt_stream, decrypt_loop, decrypt_stream,
}
use node_ecies_lib.Stream.Sealed.{chunk_bytes, IsPair, read_flag}
use node_ecies_lib.Stream.Loops.{datas, sealed, sealed_last}
use node_ecies_lib.Stream.RoundTrip.{IsStreamable, source-IsStream, encrypt_stream-datas}

module _ {R : Type 0} (ecies : EciesService R) (private_key : Bytes) where
  -- The pieces are, one by one from the front, what the chunks' bytes behind index and flags decrypt
  -- to, and the chunks have the indices from `i` on. There are at least as many chunks as pieces.
  abbrev pub InOrder : ℕ → List Bytes → List Bytes → Type 0
  InOrder i [] cs = Unit
  InOrder i (m ∷ ms) [] = length (m ∷ ms) ≡ 0
  InOrder i (m ∷ ms) (c ∷ cs) =
      (read_uint_be 4 c 0 ≡ ok i)
      × (ecies.decrypt_with_length_and_header private_key (subarray_from c 5) ≡ ok m)
      × InOrder (suc i) ms cs

  decrypt_chunk_inv :
      (c : Bytes) (d : DecryptedChunk)
      → decrypt_chunk ecies c private_key ≡ ok d
      → (read_uint_be 4 c 0 ≡ ok d.index)
        × (ecies.decrypt_with_length_and_header private_key (subarray_from c 5) ≡ ok d.data_)
  unfolding decrypt_chunk
  decrypt_chunk_inv c d e = ground arith

  decrypt_loop-InOrder :
      (chunks : List Bytes) (i : ℕ)
      → InOrder i (decrypt_loop ecies private_key chunks i).items chunks
  unfolding decrypt_loop
  decrypt_loop-InOrder [] i = tt
  decrypt_loop-InOrder (c ∷ cs) i = elim (Result-cases (decrypt_chunk ecies c private_key)) [
    | inr (x, e) ↦ rw (decrypt_loop, e) tt
    | inl (d, e) ↦ elim (Bool-cases (d.index == i)) [
      | inr ne ↦ rw (decrypt_loop, e, ne) tt
      | inl same ↦
          let (at, opened) = decrypt_chunk_inv c d e in
          let found : read_uint_be 4 c 0 ≡ ok i =
            at ∙ ap (λ (k : ℕ). ok k) ((==_iff d.index i).0 same) in
          elim (Bool-cases (bit_and d.flags 1 == 0)) [
            | inl z ↦ rw (decrypt_loop, e, same, z) (found, opened, decrypt_loop-InOrder cs (suc i))
            | inr z ↦ rw (decrypt_loop, e, same, z) (found, opened, tt)
          ]
    ]
  ]

  -- Whatever chunks are decrypted, the pieces that are yielded are what the first of them decrypt
  -- to, in their order and without a gap, and these have the indices 0, 1, 2 and so on.
  pub decrypt_stream-InOrder :
      (chunks : List Bytes) → InOrder 0 (decrypt_stream ecies private_key chunks).items chunks
  unfolding decrypt_stream
  decrypt_stream-InOrder chunks = elim (Bool-cases (length private_key == 32)) [
    | inl e ↦ rw (decrypt_stream, e) (decrypt_loop-InOrder chunks 0)
    | inr e ↦ rw (decrypt_stream, e) tt
  ]

-- A chunk whose bytes do not mark it as the last.
abbrev pub IsUnmarked : Bytes → Type 0
IsUnmarked b = read_uint_be 1 b 4 ≡ ok 0

module _ {R : Type 0} (ecies : EciesService R) (rand : ℕ → R) {public_key private_key : Bytes}
    (pair : IsPair ecies public_key private_key) where
  sealed-IsUnmarked : (ms : List Bytes) (i : ℕ) → All IsUnmarked (sealed ecies rand pair i ms)
  sealed-IsUnmarked [] i = tt
  sealed-IsUnmarked (m ∷ ms) i =
      let c = chunk_bytes i 0 (pair.seal (rand i) m) in
      let at0 : At c 0 c = record { at = refl } in
      (
        read_flag c (pair.seal (rand i) m) 0 (omega arith)
            (At-next (be_bytes 4 i) (0 ∷ pair.seal (rand i) m) 4 at0 (length-be_bytes 4 i)),
        sealed-IsUnmarked ms (suc i),
      )

  length-pieces :
      (size : ℕ) (ms : List Bytes)
      → All (λ m. length m ≡ size) ms
      → length (concat ms) ≡ size * length ms
  length-pieces size [] h = omega arith
  length-pieces size (m ∷ ms) (hm, hms) =
      length-append m (concat ms) ∙ grind (arith, length-pieces size ms hms)

  module _ (chunk_size : ℕ) (checksums : Bool) (source : List Bytes) where
    nothing_left :
        (pieces : List Bytes) (left : Bytes)
        → concat pieces ++ left ≡ concat source
        → All (λ m. length m ≡ chunk_size) pieces
        → length left < chunk_size
        → length (concat source) % chunk_size ≡ 0
        → left ≡ []
    nothing_left pieces [] split sized short even = refl
    nothing_left pieces (b ∷ bs) split sized short even =
        let n = length (b ∷ bs) in
        let total : length (concat source) ≡ chunk_size * length pieces + n =
          ap length (sym split)
          ∙ length-append (concat pieces) (b ∷ bs)
          ∙ ap (λ (k : ℕ). k + n) (length-pieces chunk_size pieces sized) in
        let none_left : n ≡ 0 =
          sym (mod-eq_of_lt short)
          ∙ sym (mul-add-mod_self_left chunk_size (length pieces) n)
          ∙ ap (λ (k : ℕ). k % chunk_size) (sym total)
          ∙ even in
        absurd (omega (arith, none_left))

    -- Of a streamable source whose length is a multiple of the chunk size, no chunk's bytes mark it
    -- as the last.
    pub encrypt_stream-IsUnmarked :
        IsStreamable ecies rand pair chunk_size checksums source
        → length (concat source) % chunk_size ≡ 0
        → All IsUnmarked
            (datas (encrypt_stream ecies rand public_key chunk_size checksums source).items)
    encrypt_stream-IsUnmarked h even =
        let st = source-IsStream ecies rand pair chunk_size checksums source h in
        let done_ = nothing_left st.pieces st.left st.split st.sized st.short even in
        subst (All IsUnmarked)
          (sym (
            encrypt_stream-datas ecies rand pair chunk_size checksums source h st.clean
            ∙ st.chunks
            ∙ ap
                (λ (t : Bytes).
                  sealed ecies rand pair 0 st.pieces
                  ++ sealed_last ecies rand pair (0 + length st.pieces) t)
                done_
            ∙ append-nil (sealed ecies rand pair 0 st.pieces)))
          (sealed-IsUnmarked st.pieces 0)
