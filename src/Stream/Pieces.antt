-- ===== src/Stream/Pieces.antt =====
-- The chunks of a stream, or the first of them, decrypted.
use node_ecies_lib.Prelude.{
  ℕ, zero, suc, ◌+◌, ◌^◌, ◌<◌, ◌≤◌, ◌≡◌, refl, sym, ap, ◌∙◌, none, List, [], ◌∷◌, ◌++◌, length,
  length-append, append_assoc, append-nil, take, All, eq→==, arith,
}
use node_ecies_lib.Errors.{ok}
use node_ecies_lib.Buffer.{Bytes, concat}
use node_ecies_lib.Stream.Chunks.{
  EciesService, Yielded, EncryptedChunk, yields, decrypt_chunk, mark_last, decrypt_loop,
}
use node_ecies_lib.Stream.Sealed.{chunk_bytes, IsPair, decrypt_chunk-chunk_bytes}
use node_ecies_lib.Stream.Loops.{datas, sealed, sealed_last}

pub datas-mark_last : (cs : List EncryptedChunk) → datas (mark_last cs) ≡ datas cs
unfolding mark_last
datas-mark_last [] = refl
datas-mark_last (c ∷ []) = refl
datas-mark_last (c ∷ d ∷ cs) = ap (λ (t : List Bytes). c.data_ ∷ t) (datas-mark_last (d ∷ cs))

-- What is left behind the full pieces, if there is anything.
abbrev pub last_piece : Bytes → List Bytes
last_piece [] = []
last_piece (b ∷ bs) = (b ∷ bs) ∷ []

pub concat-last_piece :
    (ms : List Bytes) (left : Bytes) → concat (ms ++ last_piece left) ≡ concat ms ++ left
concat-last_piece [] [] = refl
concat-last_piece [] (b ∷ bs) = append-nil (b ∷ bs)
concat-last_piece (m ∷ ms) left =
    ap (λ (t : Bytes). m ++ t) (concat-last_piece ms left) ∙ sym (append_assoc m (concat ms) left)

take-none : (n : ℕ) → take {A = Bytes} n [] ≡ []
take-none zero = refl
take-none (suc n) = refl

pub count-concat :
    (size : ℕ) (ms : List Bytes)
    → 0 < size
    → All (λ m. length m ≡ size) ms
    → length ms ≤ length (concat ms)
count-concat size [] pos h = omega arith
count-concat size (m ∷ ms) pos (hm, hms) =
    omega (arith, length-append m (concat ms), count-concat size ms pos hms)

abbrev pub ended : List Bytes → Yielded Bytes
ended ms = record { items = ms; error = none }

module _ {R : Type 0} (ecies : EciesService R) (rand : ℕ → R) {public_key private_key : Bytes}
    (pair : IsPair ecies public_key private_key) where
  -- One chunk at the index that is expected.
  decrypt_step :
      (c m : Bytes) (i : ℕ) (rest : List Bytes)
      → decrypt_chunk ecies c private_key ≡ ok (record { data_ = m; index = i; flags = 0 })
      → decrypt_loop ecies private_key (c ∷ rest) i
        ≡ yields m (decrypt_loop ecies private_key rest (suc i))
  unfolding decrypt_loop
  decrypt_step c m i rest e = rw (decrypt_loop, e, eq→== i i refl) refl

  decrypt_end :
      (c m : Bytes) (i : ℕ) (rest : List Bytes)
      → decrypt_chunk ecies c private_key ≡ ok (record { data_ = m; index = i; flags = 1 })
      → decrypt_loop ecies private_key (c ∷ rest) i ≡ ended (m ∷ [])
  unfolding decrypt_loop
  decrypt_end c m i rest e = rw (decrypt_loop, e, eq→== i i refl) refl

  decrypt_none : (i : ℕ) → decrypt_loop ecies private_key [] i ≡ ended []
  unfolding decrypt_loop
  decrypt_none i = refl

  -- The first `n` chunks decrypt to the first `n` pieces.
  pub decrypt_loop-take :
      (size : ℕ)
      → 0 < size
      → size ≤ pair.limit
      → (n : ℕ) (ms : List Bytes) (i j : ℕ) (left : Bytes) → All (λ m. length m ≡ size) ms
      → length left < size
      → j ≡ i + length ms
      → j < 2 ^ 32
      → decrypt_loop ecies private_key
          (take n (sealed ecies rand pair i ms ++ sealed_last ecies rand pair j left))
          i
        ≡ ended (take n (ms ++ last_piece left))
  decrypt_loop-take size pos fits zero ms i j left sized short e k = decrypt_none i
  decrypt_loop-take size pos fits (suc n) [] i j [] sized short e k = decrypt_none i
  decrypt_loop-take size pos fits (suc n) [] i j (b ∷ bs) sized short e k =
      let same : j ≡ i = omega arith in
      let c = chunk_bytes j 1 (pair.seal (rand j) (b ∷ bs)) in
      ap (λ (x : ℕ). decrypt_loop ecies private_key (c ∷ take n []) x) (sym same)
      ∙ decrypt_end c (b ∷ bs) j (take n []) (
          decrypt_chunk-chunk_bytes ecies pair (rand j) (b ∷ bs) j 1 (omega arith)
            (omega (arith, fits)) k (omega arith))
      ∙ ap (λ (t : List Bytes). ended ((b ∷ bs) ∷ t)) (sym (take-none n))
  decrypt_loop-take size pos fits (suc n) (m ∷ ms) i j left (hm, hms) short e k =
      decrypt_step (chunk_bytes i 0 (pair.seal (rand i) m)) m i
        (take n (sealed ecies rand pair (suc i) ms ++ sealed_last ecies rand pair j left))
        (decrypt_chunk-chunk_bytes ecies pair (rand i) m i 0 (omega (arith, hm, pos))
          (omega (arith, hm, fits)) (omega arith) (omega arith))
      ∙ ap (λ (y : Yielded Bytes). yields m y)
          (decrypt_loop-take size pos fits n ms (suc i) j left hms short (omega arith) k)
