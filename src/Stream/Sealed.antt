-- ===== src/Stream/Sealed.antt =====
-- What one chunk holds, and what `encrypt_stream` yields.
use node_ecies_lib.Prelude.{
  ℕ, ◌%◌, ◌^◌, ◌<◌, ◌≤◌, ◌≡◌, refl, sym, ap, ◌∙◌, Bool, none, some, [], ◌∷◌, ◌++◌, length, lt→ltb,
  arith, if◌then◌else◌,
}
use node_ecies_lib.Errors.{ok}
use node_ecies_lib.Buffer.{Bytes, be_bytes, read_uint_be, write_uint_be}
use node_ecies_lib.Buffer.Laws.{length-be_bytes, write-alloc_front}
use node_ecies_lib.Buffer.Fields.{At, At-next, At-read, At-from}
use node_ecies_lib.Stream.Chunks.{EciesService, EncryptedChunk, encrypt_chunk, decrypt_chunk}

-- The bytes of a chunk.
abbrev pub chunk_bytes : ℕ → ℕ → Bytes → Bytes
chunk_bytes index flag encrypted = be_bytes 4 index ++ (flag ∷ encrypted)

write_flag :
    (index flag : ℕ)
    → flag < 256
    → write_uint_be 1 flag (be_bytes 4 index ++ (0 ∷ [])) 4 ≡ ok (be_bytes 4 index ++ (flag ∷ []))
unfolding write_uint_be
write_flag index flag h =
    rw (lt→ltb flag 256 h)
      (ap (λ (f : ℕ). ok (be_bytes 4 index ++ (f ∷ []))) {x = flag % 256} {y = flag} (omega arith))

one_byte : (flag : ℕ) → flag < 256 → be_bytes 1 flag ≡ flag ∷ []
unfolding be_bytes
one_byte flag h = ap (λ (f : ℕ). f ∷ []) {x = flag % 256} {y = flag} (omega arith)

pub read_flag :
    (data_ rest : Bytes) (flag : ℕ)
    → flag < 256
    → At data_ 4 (flag ∷ rest)
    → read_uint_be 1 data_ 4 ≡ ok flag
read_flag data_ rest flag h at =
    At-read 1 flag rest (omega arith) h
      (record { at = at.at ∙ ap (λ (b : Bytes). b ++ rest) (sym (one_byte flag h)) })

module _ {R : Type 0} (ecies : EciesService R) where
  -- Encryption that does not fail of messages that are neither empty nor longer than a limit, with
  -- the key that its private key undoes.
  pub record IsPair (public_key private_key : Bytes) : Type 0 where
    pub seal : R → Bytes → Bytes
    pub limit : ℕ
    pub encrypts :
        (r : R) (m : Bytes)
        → 0 < length m
        → length m ≤ limit
        → ecies.encrypt_with_length r public_key m ≡ ok (seal r m)
    pub decrypts :
        (r : R) (m : Bytes)
        → 0 < length m
        → length m ≤ limit
        → ecies.decrypt_with_length_and_header private_key (seal r m) ≡ ok m

  module _ {public_key private_key : Bytes} (pair : IsPair public_key private_key) where
    pub encrypt_chunk-data :
        (r : R) (m : Bytes) (index : ℕ) (is_last checksums : Bool)
        → 0 < length m
        → length m ≤ pair.limit
        → index < 2 ^ 32
        → (c : EncryptedChunk) × (encrypt_chunk ecies r m public_key index is_last checksums ≡ ok c)
          × (c.data_ ≡ chunk_bytes index (if is_last then 1 else 0) (pair.seal r m))
          × (c.is_last ≡ is_last)
    unfolding encrypt_chunk
    encrypt_chunk-data r m index is_last checksums full fits h =
        let flag : ℕ = if is_last then 1 else 0 in
        let small : flag < 256 = ground arith in
        (
          record {
            index = index;
            data_ = chunk_bytes index flag (pair.seal r m);
            is_last = is_last;
            metadata =
                if checksums
                then some
                    (record { original_size = length m; encrypted_size = length (pair.seal r m) })
                else none;
          },
          rw
              (
                pair.encrypts r m full fits,
                write-alloc_front 4 index 5 1 refl h,
                write_flag index flag small,
              )
              refl,
          refl,
          refl,
        )

    pub decrypt_chunk-chunk_bytes :
        (r : R) (m : Bytes) (index flag : ℕ)
        → 0 < length m
        → length m ≤ pair.limit
        → index < 2 ^ 32
        → flag < 256
        → decrypt_chunk ecies (chunk_bytes index flag (pair.seal r m)) private_key
          ≡ ok (record { data_ = m; index = index; flags = flag })
    unfolding decrypt_chunk
    decrypt_chunk-chunk_bytes r m index flag full fits h g =
        let data_ = chunk_bytes index flag (pair.seal r m) in
        let at0 : At data_ 0 data_ = record { at = refl } in
        let at4 =
          At-next (be_bytes 4 index) (flag ∷ pair.seal r m) 4 at0 (length-be_bytes 4 index) in
        rw
          (
            At-read 4 index (flag ∷ pair.seal r m) (omega arith) h at0,
            read_flag data_ (pair.seal r m) flag g at4,
            At-from (pair.seal r m) (At-next (flag ∷ []) (pair.seal r m) 1 at4 refl),
            pair.decrypts r m full fits,
          )
          refl
