-- ===== src/VoteLog/Bounds.antt =====
-- What a log can give back at most.
use node_ecies_lib.Prelude.{
  ℕ, zero, suc, ◌+◌, ◌-◌, ◌*◌, ◌^◌, ◌<◌, ◌≤◌, ◌≡◌, ap, subst, ◌∙◌, List, [], ◌∷◌, length, take,
  drop, length-take, All, arith,
}
use node_ecies_lib.Errors.{Result, ok, value_or}
use node_ecies_lib.Buffer.{Bytes, IsByte, be_acc, subarray, read_uint_be}
use node_ecies_lib.VoteLog.Entry.{Entry, read_value, read_values, deserialize_vote}

be_acc-lt : (acc n : ℕ) (bs : Bytes) → All IsByte bs → acc < n → be_acc acc bs < n * 256 ^ length bs
unfolding be_acc
be_acc-lt acc n [] h k = omega arith
be_acc-lt acc n (b ∷ bs) (hb, hbs) k =
    let later = be_acc-lt (acc * 256 + b) (n * 256) bs hbs (omega arith) in
    subst (λ m. be_acc (acc * 256 + b) bs < m)
      (assoc n (256 ^ length bs) ∙ ap (λ (m : ℕ). n * m) (power_suc (length bs))) later
  where
    assoc : (n p : ℕ) → n * 256 * p ≡ n * (256 * p)
    assoc n p = grind arith

    power_suc : (k : ℕ) → 256 * 256 ^ k ≡ 256 ^ suc k
    power_suc k = omega arith

All-take : (n : ℕ) (bs : Bytes) → All IsByte bs → All IsByte (take n bs)
All-take zero bs h = tt
All-take (suc n) [] h = tt
All-take (suc n) (b ∷ bs) (hb, hbs) = (hb, All-take n bs hbs)

All-drop : (n : ℕ) (bs : Bytes) → All IsByte bs → All IsByte (drop n bs)
All-drop zero bs h = h
All-drop (suc n) [] h = tt
All-drop (suc n) (b ∷ bs) (hb, hbs) = All-drop n bs hbs

power_le : (n m : ℕ) → n ≤ m → 256 ^ n ≤ 256 ^ m
power_le zero zero h = omega arith
power_le zero (suc m) h = omega (arith, power_le zero m (omega arith))
power_le (suc n) zero h = absurd (omega arith)
power_le (suc n) (suc m) h = omega (arith, power_le n m (omega arith))

read_value-lt :
    (bs : Bytes) (v : ℕ) → All IsByte bs → length bs ≤ 32 → read_value bs ≡ ok v → v < 256 ^ 32
unfolding read_value
read_value-lt [] v h k e = cc
read_value-lt (b ∷ bs) v h k e =
    let same : be_acc 0 (b ∷ bs) ≡ v = ap (λ (r : Result ℕ). value_or r 0) e in
    omega (arith, same, be_acc-lt 0 1 (b ∷ bs) h (omega arith), power_le (length (b ∷ bs)) 32 k)

read_values-lt :
    (data_ : Bytes) (count offset : ℕ) (vs : List ℕ)
    → All IsByte data_
    → read_values data_ count offset ≡ ok vs
    → All (λ v. v < 256 ^ 32) vs
unfolding read_values subarray
read_values-lt data_ zero offset vs h e = ground arith
read_values-lt data_ (suc count) offset vs h e =
    let cut = subarray data_ offset (offset + 32) in
    let rest = read_values data_ count (offset + 32) in
    ground (
      arith,
      read_value-lt cut (value_or (read_value cut) 0)
          (All-take (offset + 32 - offset) (drop offset data_) (All-drop offset data_ h))
          (omega (arith, length-take (offset + 32 - offset) (drop offset data_))),
      read_values-lt data_ count (offset + 32) (value_or rest []) h,
    )

-- Whatever bytes are deserialized, the values of the entry are below 2 ^ 256.
pub deserialize_vote-lt :
    (b : Bytes) (e : Entry)
    → All IsByte b
    → deserialize_vote b ≡ ok e
    → All (λ v. v < 256 ^ 32) e.encrypted_vote
unfolding deserialize_vote
deserialize_vote-lt b e h d =
    let n = value_or (read_uint_be 4 b 12) 0 in
    let count = value_or (read_uint_be 4 b (16 + n)) 0 in
    ground (
      arith,
      read_values-lt b count (16 + n + 4) (value_or (read_values b count (16 + n + 4)) []) h,
    )
