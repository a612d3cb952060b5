-- ===== src/Stream/Loops.antt =====
-- The chunks that the loops of `encrypt_stream` yield.
use node_ecies_lib.Prelude.{
  ℕ, zero, suc, ◌+◌, ◌*◌, ◌^◌, ◌<◌, ◌≤◌, ◌≡◌, refl, sym, ap, subst, ◌∙◌, Bool, true, false,
  Bool-cases, none, inl, inr, List, [], ◌∷◌, ◌++◌, length, length-append, length-take, length-drop,
  append_assoc, append-nil, take, drop, take-append-drop, All, ltb, ltb→lt, le→ltb, pos→==0, arith,
}
use node_ecies_lib.Buffer.{Bytes, concat, subarray, subarray_from}
use node_ecies_lib.Stream.Chunks.{
  EciesService, Yielded, EncryptedChunk, yields, chunk_loop, last_chunk, source_loop,
}
use node_ecies_lib.Stream.Sealed.{chunk_bytes, IsPair, encrypt_chunk-data}

abbrev pub datas : List EncryptedChunk → List Bytes
datas [] = []
datas (c ∷ cs) = c.data_ ∷ datas cs

not_less : (a b : ℕ) → ltb a b ≡ false → b ≤ a
not_less a b e = ground arith

front : (n : ℕ) (buf : Bytes) → subarray buf 0 n ≡ take n buf
unfolding subarray
front n buf = ap (λ (k : ℕ). take k buf) {y = n} (omega arith)

rejoin : (n : ℕ) (buf rest : Bytes) → subarray buf 0 n ++ (drop n buf ++ rest) ≡ buf ++ rest
rejoin n buf rest =
    ap (λ (t : Bytes). t ++ (drop n buf ++ rest)) (front n buf)
    ∙ sym (append_assoc (take n buf) (drop n buf) rest)
    ∙ ap (λ (t : Bytes). t ++ rest) (take-append-drop n buf)

module _ {R : Type 0} (ecies : EciesService R) (rand : ℕ → R) {public_key private_key : Bytes}
    (pair : IsPair ecies public_key private_key) where
  -- The chunks of the pieces `ms`, from the index `i` on, none of which is marked as the last.
  abbrev pub sealed : ℕ → List Bytes → List Bytes
  sealed i [] = []
  sealed i (m ∷ ms) = chunk_bytes i 0 (pair.seal (rand i) m) ∷ sealed (suc i) ms

  -- The last chunk, if there is anything left for it.
  abbrev pub sealed_last : ℕ → Bytes → List Bytes
  sealed_last i [] = []
  sealed_last i (b ∷ bs) = chunk_bytes i 1 (pair.seal (rand i) (b ∷ bs)) ∷ []

  module _ (chunk_size : ℕ) (checksums : Bool) where
    -- The chunks of `bytes`: pieces of the chunk size, and a last chunk of what is left.
    pub record IsStream (bytes : Bytes) (i : ℕ) (y : Yielded EncryptedChunk) : Type 0 where
      pub pieces : List Bytes
      pub left : Bytes
      pub split : concat pieces ++ left ≡ bytes
      pub sized : All (λ m. length m ≡ chunk_size) pieces
      pub short : length left < chunk_size
      pub clean : y.error ≡ none
      pub chunks : datas y.items ≡ sealed i pieces ++ sealed_last (i + length pieces) left

    last_chunk-IsStream :
        (buf : Bytes) (i : ℕ)
        → chunk_size ≤ pair.limit
        → length buf < chunk_size
        → i < 2 ^ 32
        → IsStream buf i (last_chunk ecies rand public_key chunk_size checksums buf i)
    unfolding last_chunk
    last_chunk-IsStream [] i fits h k = record {
      pieces = [];
      left = [];
      split = refl;
      sized = tt;
      short = h;
      clean = refl;
      chunks = refl;
    }
    last_chunk-IsStream (b ∷ bs) i fits h k =
        let (c, made, bytes, last) =
          encrypt_chunk-data ecies pair (rand i) (b ∷ bs) i true checksums (omega arith)
            (omega (arith, fits)) k in
        rw (pos→==0 (length (b ∷ bs)) (omega arith), made)
          (record {
            pieces = [];
            left = b ∷ bs;
            split = refl;
            sized = tt;
            short = h;
            clean = refl;
            chunks =
                ap (λ (t : Bytes). t ∷ []) bytes
                ∙ ap (λ (j : ℕ). chunk_bytes j 1 (pair.seal (rand j) (b ∷ bs)) ∷ []) {y = i + 0}
                    (omega arith);
          })

    -- One full chunk in front.
    yields-IsStream :
        (m rest : Bytes) (i : ℕ) (c : EncryptedChunk) (y : Yielded EncryptedChunk)
        → length m ≡ chunk_size
        → c.data_ ≡ chunk_bytes i 0 (pair.seal (rand i) m)
        → IsStream rest (suc i) y
        → IsStream (m ++ rest) i (yields c y)
    yields-IsStream m rest i c y sized bytes h = record {
      pieces = m ∷ h.pieces;
      left = h.left;
      split = append_assoc m (concat h.pieces) h.left ∙ ap (λ (t : Bytes). m ++ t) h.split;
      sized = (sized, h.sized);
      short = h.short;
      clean = h.clean;
      chunks =
          ap (λ (t : Bytes). t ∷ datas y.items) bytes
          ∙ ap (λ (t : List Bytes). chunk_bytes i 0 (pair.seal (rand i) m) ∷ t) h.chunks
          ∙ ap
              (λ (j : ℕ).
                chunk_bytes i 0 (pair.seal (rand i) m)
                ∷ (sealed (suc i) h.pieces ++ sealed_last j h.left))
              {y = i + length (m ∷ h.pieces)} (omega arith);
    }

    chunk_loop-IsStream :
        (rest : Bytes) (next : Bytes → ℕ → Yielded EncryptedChunk)
        → 0 < chunk_size
        → chunk_size ≤ pair.limit
        → ((buf : Bytes) (i : ℕ)
            → length buf < chunk_size
            → i + length (buf ++ rest) < 2 ^ 32
            → IsStream (buf ++ rest) i (next buf i))
        → (fuel : ℕ) (buf : Bytes) (i : ℕ) → length buf ≤ fuel
        → i + length (buf ++ rest) < 2 ^ 32
        → IsStream
            (buf ++ rest)
            i
            (chunk_loop ecies rand public_key chunk_size checksums fuel buf i next)
    unfolding chunk_loop subarray subarray_from
    chunk_loop-IsStream rest next pos fits ends zero buf i f k = ends buf i (omega arith) k
    chunk_loop-IsStream rest next pos fits ends (suc fuel) buf i f k =
        elim (Bool-cases (ltb (length buf) chunk_size)) [
          | inl e ↦ rw e (ends buf i (ltb→lt (length buf) chunk_size e) k)
          | inr e ↦
              let enough : chunk_size ≤ length buf = not_less (length buf) chunk_size e in
              let m = subarray buf 0 chunk_size in
              let later = drop chunk_size buf in
              let sized : length m ≡ chunk_size =
                omega (arith, length-take chunk_size buf, ap length (front chunk_size buf)) in
              let (c, made, bytes, last) =
                encrypt_chunk-data ecies pair (rand i) m i false checksums
                  (omega (arith, sized, pos)) (omega (arith, sized, fits))
                  (omega (arith, length-append buf rest)) in
              let tail =
                chunk_loop-IsStream rest next pos fits ends fuel later (suc i)
                  (omega (arith, length-drop chunk_size buf))
                  (omega (
                    arith,
                    length-drop chunk_size buf,
                    length-append buf rest,
                    length-append later rest,
                  )) in
              let y =
                chunk_loop ecies rand public_key chunk_size checksums fuel later (suc i) next in
              rw (e, made)
                (subst (λ (b : Bytes). IsStream b i (yields c y)) (rejoin chunk_size buf rest)
                  (yields-IsStream m (later ++ rest) i c y sized bytes tail))
        ]

    pub source_loop-IsStream :
        (source : List Bytes) (buf : Bytes) (i : ℕ)
        → 0 < chunk_size
        → chunk_size ≤ pair.limit
        → All (λ d. length d ≤ 100 * 1024 * 1024) source
        → length buf < chunk_size
        → i + length (buf ++ concat source) < 2 ^ 32
        → IsStream
            (buf ++ concat source)
            i
            (source_loop ecies rand public_key chunk_size checksums source buf i)
    unfolding source_loop
    source_loop-IsStream [] buf i pos fits small h k =
        subst
          (λ (b : Bytes).
            IsStream b i (last_chunk ecies rand public_key chunk_size checksums buf i))
          (sym (append-nil buf)) (last_chunk-IsStream buf i fits h (omega arith))
    source_loop-IsStream (d ∷ source) buf i pos fits (hd, hs) h k =
        let next = λ (b : Bytes) (j : ℕ).
          source_loop ecies rand public_key chunk_size checksums source b j in
        let whole : (buf ++ d) ++ concat source ≡ buf ++ (d ++ concat source) =
          append_assoc buf d (concat source) in
        rw (le→ltb (100 * 1024 * 1024) (length d) hd) (
          subst
            (λ (b : Bytes). IsStream b i (
              chunk_loop ecies rand public_key chunk_size checksums (length (buf ++ d)) (buf ++ d) i
                next))
            whole
            (chunk_loop-IsStream (concat source) next pos fits
              (λ b j short few. source_loop-IsStream source b j pos fits hs short few)
              (length (buf ++ d)) (buf ++ d) i (omega arith) (omega (arith, ap length whole))))
