-- ===== src/Buffer/Fields.antt =====
-- Reading a buffer field by field: what stands at an offset, and where the next field begins.
use node_ecies_lib.Prelude.{
  ℕ, zero, suc, ◌+◌, ◌-◌, ◌^◌, ◌<◌, ◌≤◌, ◌≡◌, sym, ap, ◌∙◌, [], ◌∷◌, ◌++◌, length, length-append,
  length-drop, arith, take, drop, take-append, drop_all, drop-append, le→ltb,
}
use node_ecies_lib.Errors.{ok}
use node_ecies_lib.Buffer.{Bytes, subarray, subarray_from, be_bytes, read_uint_be}
use node_ecies_lib.Buffer.Laws.{length-be_bytes, be_acc-be_bytes}

-- From `offset` on the buffer holds `rest`.
pub record At (data_ : Bytes) (offset : ℕ) (rest : Bytes) : Type 0 where
  pub at : drop offset data_ ≡ rest

pub suc_add : (n m : ℕ) → suc n + m ≡ suc (n + m)
suc_add n m = omega arith

drop-drop : (n m : ℕ) (xs : Bytes) → drop m (drop n xs) ≡ drop (n + m) xs
drop-drop zero m xs = ap (λ (k : ℕ). drop k xs) (omega arith)
drop-drop (suc n) m [] = drop_all [] m (omega arith) ∙ sym (drop_all [] (suc n + m) (omega arith))
drop-drop (suc n) m (x ∷ xs) =
    drop-drop n m xs ∙ ap (λ (k : ℕ). drop k (x ∷ xs)) (sym (suc_add n m))

module _ {data_ : Bytes} {offset : ℕ} where
  pub At-next :
      (x rest : Bytes) (n : ℕ)
      → At data_ offset (x ++ rest)
      → length x ≡ n
      → At data_ (offset + n) rest
  At-next x rest n h len = record {
    at =
        sym (drop-drop offset n data_)
        ∙ ap (λ (t : Bytes). drop n t) h.at
        ∙ drop-append x rest n len;
  }

  pub At-subarray :
      (x rest : Bytes) (n : ℕ)
      → At data_ offset (x ++ rest)
      → length x ≡ n
      → subarray data_ offset (offset + n) ≡ x
  unfolding subarray
  At-subarray x rest n h len =
      ap (λ (t : Bytes). take (offset + n - offset) t) h.at
      ∙ take-append x rest (offset + n - offset) (omega arith)

  -- The buffer reaches over the field, if the field is not empty.
  pub At-le :
      (x rest : Bytes)
      → At data_ offset (x ++ rest)
      → 0 < length x
      → offset + length x ≤ length data_
  At-le x rest h pos = omega (arith, length-drop offset data_, ap length h.at, length-append x rest)

  pub At-read :
      (k v : ℕ) (rest : Bytes)
      → 0 < k
      → v < 256 ^ k
      → At data_ offset (be_bytes k v ++ rest)
      → read_uint_be k data_ offset ≡ ok v
  unfolding read_uint_be
  At-read k v rest hk hv h =
      rw
        (
          le→ltb (length data_) (offset + k)
              (omega (arith, At-le (be_bytes k v) rest h, length-be_bytes k v)),
          At-subarray (be_bytes k v) rest k h (length-be_bytes k v),
        )
        (ap ok (be_acc-be_bytes k v hv))

  pub At-from : (rest : Bytes) → At data_ offset rest → subarray_from data_ offset ≡ rest
  unfolding subarray_from
  At-from rest h = h.at
