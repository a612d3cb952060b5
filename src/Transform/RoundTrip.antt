-- ===== src/Transform/RoundTrip.antt =====
-- The decryption transform undoes the encryption transform.
use node_ecies_lib.Prelude.{
  ℕ, zero, suc, ◌+◌, ◌-◌, ◌<◌, ◌≤◌, ◌≡◌, refl, ap, subst, ◌∙◌, Bool-cases, none, inl, inr, [], ◌∷◌,
  ◌++◌, length, length-append, length-take, length-drop, append-nil, take, drop, take-append,
  drop-append, take-append-drop, ltb, ltb→lt, le→ltb, lt→ltb, pos→==0, arith,
}
use node_ecies_lib.Errors.{Error, Result, ok}
use node_ecies_lib.Buffer.{Bytes, concat, subarray, subarray_from}
use node_ecies_lib.Transform.{TransformError, Pushed, pushes, block_loop, flush}
use node_ecies_lib.Transform.Chunking.{at_least}

module _ (seal open_ : ℕ → Bytes → Result Bytes) (wrap wrap_other : Error → TransformError)
    (size overhead : ℕ) (positive : 0 < size)
    (pair : (count : ℕ) (m : Bytes)
      → 0 < length m
      → length m ≤ size
      → (e : Bytes) × ((seal count m ≡ ok e)
          × ((length e ≡ length m + overhead) × ((i : ℕ) → open_ i e ≡ ok m)))) where
  abbrev opened : ℕ → Bytes → ℕ → Pushed
  opened more buf count =
      block_loop open_ wrap_other (size + overhead) more buf count
        (flush open_ wrap_other (size + overhead))

  -- The blocks of `p` are opened to `bytes`.
  pub record IsUndone (bytes : Bytes) (p : Pushed) : Type 0 where
    pub clean : p.error ≡ none
    pub undone :
        (more count : ℕ)
        → length (concat p.blocks) ≤ more
        → ((opened more (concat p.blocks) count).error ≡ none)
          × (concat (opened more (concat p.blocks) count).blocks ≡ bytes)

  opened-short :
      (more count : ℕ) (e m : Bytes)
      → 0 < length e
      → length e < size + overhead
      → ((i : ℕ) → open_ i e ≡ ok m)
      → length (e ++ []) ≤ more
      → opened more (e ++ []) count ≡ record { blocks = m ∷ []; error = none }
  unfolding block_loop flush
  opened-short zero count e m some_byte short opens h = absurd (omega (arith, length-append e []))
  opened-short (suc more) count e m some_byte short opens h =
      rw
        (
          append-nil e,
          lt→ltb (length e) (size + overhead) short,
          flush,
          pos→==0 (length e) some_byte,
          opens count,
        )
        refl

  opened-none : (more count : ℕ) → opened more [] count ≡ record { blocks = []; error = none }
  unfolding block_loop flush
  opened-none zero count = refl
  opened-none (suc more) count = rw (lt→ltb 0 (size + overhead) (omega arith), flush) refl

  flush-IsUndone :
      (buf : Bytes) (count : ℕ) → length buf < size → IsUndone buf (flush seal wrap size buf count)
  unfolding flush block_loop
  flush-IsUndone [] count short = record {
    clean = refl;
    undone = λ more i h. (
      ap (λ (p : Pushed). p.error) (opened-none more i),
      ap (λ (p : Pushed). concat p.blocks) (opened-none more i),
    );
  }
  flush-IsUndone (b ∷ bs) count short =
      let (e, (made, (sized, opens))) = pair count (b ∷ bs) (omega arith) (omega arith) in
      rw (pos→==0 (length (b ∷ bs)) (omega arith), made)
        (record {
          clean = refl;
          undone = λ more i h.
              let same =
                opened-short more i e (b ∷ bs) (omega (arith, sized)) (omega (arith, sized)) opens
                  h in
              (
                ap (λ (p : Pushed). p.error) same,
                ap (λ (p : Pushed). concat p.blocks) same ∙ append-nil (b ∷ bs),
              );
        })

  opened-block :
      (more count : ℕ) (e m rest : Bytes)
      → length e ≡ size + overhead
      → ((i : ℕ) → open_ i e ≡ ok m)
      → opened (suc more) (e ++ rest) count ≡ pushes m (opened more rest (suc count))
  unfolding block_loop subarray subarray_from
  opened-block more count e m rest sized opens =
      rw
        (
          le→ltb (length (e ++ rest)) (size + overhead)
              (omega (arith, length-append e rest, sized)),
          take-append e rest (size + overhead - 0) (omega (arith, sized)),
          opens count,
          drop-append e rest (size + overhead) sized,
        )
        refl

  pushes-IsUndone :
      (m rest e : Bytes) (p : Pushed)
      → length e ≡ size + overhead
      → ((i : ℕ) → open_ i e ≡ ok m)
      → IsUndone rest p
      → IsUndone (m ++ rest) (pushes e p)
  pushes-IsUndone m rest e p sized opens h = record {
    clean = h.clean;
    undone = λ more i k.
        elim more
            as (λ more.
              length (concat (e ∷ p.blocks)) ≤ more
              → ((opened more (concat (e ∷ p.blocks)) i).error ≡ none)
                × (concat (opened more (concat (e ∷ p.blocks)) i).blocks ≡ m ++ rest)) [
                  | zero ↦ λ k. absurd (omega (arith, length-append e (concat p.blocks), sized))
                  | suc n ↦ λ k.
                      let (clean, bytes) =
                        h.undone n (suc i)
                          (omega (arith, length-append e (concat p.blocks), sized)) in
                      let same = opened-block n i e m (concat p.blocks) sized opens in
                      (
                        ap (λ (p : Pushed). p.error) same ∙ clean,
                        ap (λ (p : Pushed). concat p.blocks) same
                            ∙ ap (λ (t : Bytes). m ++ t) bytes,
                      )
                ]
          k;
  }

  pub block_loop-IsUndone :
      (fuel : ℕ) (buf : Bytes) (count : ℕ)
      → length buf ≤ fuel
      → IsUndone buf (block_loop seal wrap size fuel buf count (flush seal wrap size))
  unfolding block_loop subarray subarray_from
  block_loop-IsUndone zero buf count h = flush-IsUndone buf count (omega arith)
  block_loop-IsUndone (suc fuel) buf count h = elim (Bool-cases (ltb (length buf) size)) [
    | inl e ↦ rw e (flush-IsUndone buf count (ltb→lt (length buf) size e))
    | inr e ↦
        let enough = at_least (length buf) size e in
        let front : subarray buf 0 size ≡ take size buf =
          ap (λ (k : ℕ). take k buf) {x = size - 0} {y = size} (omega arith) in
        let m = subarray buf 0 size in
        let sized : length m ≡ size = omega (arith, length-take size buf, ap length front) in
        let (sealed, (made, (longer, opens))) =
          pair count m (omega (arith, sized)) (omega (arith, sized)) in
        let tail =
          block_loop-IsUndone fuel (drop size buf) (suc count)
            (omega (arith, length-drop size buf)) in
        let whole : m ++ drop size buf ≡ buf =
          ap (λ (t : Bytes). t ++ drop size buf) front ∙ take-append-drop size buf in
        let p = block_loop seal wrap size fuel (drop size buf) (suc count) (flush seal wrap size) in
        rw (e, made)
          (subst (λ (b : Bytes). IsUndone b (pushes sealed p)) whole
            (pushes-IsUndone m (drop size buf) sealed p (omega (arith, longer, sized)) opens tail))
  ]
