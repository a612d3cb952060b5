-- ===== src/Stream/Recipients.antt =====
-- What the streams for several recipients refuse, and in which order they yield.
use Prim.Native.Nat.{bit_and}
use node_ecies_lib.Prelude.{
  ℕ, suc, ◌<◌, ◌≤◌, ◌≡◌, refl, ◌⊎◌, inl, inr, Bool-cases, none, List, [], ◌∷◌, length, All, ◌==◌,
  ==_iff, arith,
}
use node_ecies_lib.Errors.{ok, Result-cases}
use node_ecies_lib.Buffer.{Bytes}
use node_ecies_lib.Stream.Chunks.{DecryptedChunk}
use node_ecies_lib.Stream.Multiple.{
  Recipient, Processor, check_recipients, encrypt_stream_multiple, multiple_decrypt_loop,
  decrypt_stream_multiple,
}

abbrev pub IsRecipient : ℕ → Recipient → Type 0
IsRecipient id_size r =
    ((length r.public_key ≡ 65) ⊎ (length r.public_key ≡ 33)) × (length r.id ≡ id_size)

check_recipients-IsRecipient :
    (id_size : ℕ) (rs : List Recipient)
    → check_recipients id_size rs ≡ none
    → All (λ r. IsRecipient id_size r) rs
unfolding check_recipients
check_recipients-IsRecipient id_size [] e = tt
check_recipients-IsRecipient id_size (r ∷ rs) e =
    ground (arith, check_recipients-IsRecipient id_size rs)

module _ {A R : Type 0} (processor : Processor A R) where
  -- A stream that yields a chunk, or ends without an error, has between 1 and 65535 recipients, each
  -- with a public key of 33 or 65 bytes and an ID of the configured length.
  pub encrypt_stream_multiple-IsRecipient :
      (rand : ℕ → R) (recipients : List Recipient) (symmetric_key : Bytes) (chunk_size id_size : ℕ)
      (source : List Bytes)
      → (0
          < length
              (encrypt_stream_multiple processor rand recipients symmetric_key chunk_size id_size
                source).items)
        ⊎ ((encrypt_stream_multiple processor rand recipients symmetric_key chunk_size id_size
              source).error
            ≡ none)
      → (0 < length recipients)
        × (length recipients ≤ 65535)
        × All (λ r. IsRecipient id_size r) recipients
  unfolding encrypt_stream_multiple
  encrypt_stream_multiple-IsRecipient rand recipients symmetric_key chunk_size id_size source h =
      ground (arith, check_recipients-IsRecipient id_size recipients)

  module _ (recipient_id private_key : Bytes) where
    -- The pieces are, one by one from the front, what the chunks are decrypted to for the
    -- recipient, with the indices from `i` on. There are at least as many chunks as pieces.
    abbrev pub AreCounted : ℕ → List Bytes → List Bytes → Type 0
    AreCounted i [] cs = Unit
    AreCounted i (m ∷ ms) [] = length (m ∷ ms) ≡ 0
    AreCounted i (m ∷ ms) (c ∷ cs) =
        ((d : DecryptedChunk) × (processor.decrypt_chunk c recipient_id private_key ≡ ok d)
          × (d.data_ ≡ m)
          × (d.index ≡ i))
        × AreCounted (suc i) ms cs

    loop-AreCounted :
        (chunks : List Bytes) (i : ℕ)
        → AreCounted i
            (multiple_decrypt_loop processor recipient_id private_key chunks i).items
            chunks
    unfolding multiple_decrypt_loop
    loop-AreCounted [] i = tt
    loop-AreCounted (c ∷ cs) i =
        elim (Result-cases (processor.decrypt_chunk c recipient_id private_key)) [
          | inr (x, e) ↦ rw (multiple_decrypt_loop, e) tt
          | inl (d, e) ↦ elim (Bool-cases (d.index == i)) [
            | inr ne ↦ rw (multiple_decrypt_loop, e, ne) tt
            | inl same ↦
                let counted : (x : DecryptedChunk) × (processor.decrypt_chunk c recipient_id
                        private_key
                      ≡ ok x)
                    × (x.data_ ≡ d.data_)
                    × (x.index ≡ i) =
                  (d, e, refl, (==_iff d.index i).0 same) in
                elim (Bool-cases (bit_and d.flags 1 == 0)) [
                  | inl z ↦
                      rw (multiple_decrypt_loop, e, same, z) (counted, loop-AreCounted cs (suc i))
                  | inr z ↦ rw (multiple_decrypt_loop, e, same, z) (counted, tt)
                ]
          ]
        ]

    -- Whatever chunks are decrypted for a recipient, the pieces that are yielded are what the first
    -- of them are decrypted to, in their order and without a gap, and these have the indices 0, 1, 2
    -- and so on.
    pub decrypt_stream_multiple-AreCounted :
        (id_size : ℕ) (chunks : List Bytes)
        → AreCounted 0
            (decrypt_stream_multiple processor recipient_id private_key id_size chunks).items
            chunks
    unfolding decrypt_stream_multiple
    decrypt_stream_multiple-AreCounted id_size chunks =
        elim (Bool-cases (length recipient_id == id_size)) [
          | inr e ↦ rw (decrypt_stream_multiple, e) tt
          | inl k ↦ elim (Bool-cases (length private_key == 32)) [
            | inl e ↦ rw (decrypt_stream_multiple, k, e) (loop-AreCounted chunks 0)
            | inr e ↦ rw (decrypt_stream_multiple, k, e) tt
          ]
        ]
