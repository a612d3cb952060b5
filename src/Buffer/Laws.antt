-- ===== src/Buffer/Laws.antt =====
-- Laws of the big-endian codecs and of `equals`.
use node_ecies_lib.Prelude.{
  ℕ, zero, suc, ◌+◌, ◌*◌, ◌/◌, ◌%◌, ◌^◌, ◌<◌, ◌≡◌, refl, true, [], ◌∷◌, ◌++◌, length, length-append,
  arith, ap, sym, ◌∙◌, take-append, drop, drop_all, length-replicate, append-nil, append_assoc,
  drop-append, le→ltb, lt→ltb,
}
use node_ecies_lib.Errors.{ok}
use node_ecies_lib.Buffer.{Bytes, alloc, equals, be_acc, be_bytes, write_uint_be}

pub be_acc-append : (xs ys : Bytes) (acc : ℕ) → be_acc acc (xs ++ ys) ≡ be_acc (be_acc acc xs) ys
unfolding be_acc
be_acc-append [] ys acc = refl
be_acc-append (x ∷ xs) ys acc = be_acc-append xs ys (acc * 256 + x)

be_acc-nil : (acc : ℕ) → be_acc acc [] ≡ acc
unfolding be_acc
be_acc-nil acc = refl

be_acc-snoc : (xs : Bytes) (x acc : ℕ) → be_acc acc (xs ++ (x ∷ [])) ≡ be_acc acc xs * 256 + x
be_acc-snoc xs x acc = be_acc-append xs (x ∷ []) acc ∙ unfold be_acc in refl

pub length-be_bytes : (k v : ℕ) → length (be_bytes k v) ≡ k
unfolding be_bytes
length-be_bytes zero v = refl
length-be_bytes (suc k) v =
    length-append (be_bytes k (v / 256)) _ ∙ omega (arith, length-be_bytes k (v / 256))

-- Reading back what was written, when the value fits.
pub be_acc-be_bytes : (k v : ℕ) → v < 256 ^ k → be_acc 0 (be_bytes k v) ≡ v
unfolding be_bytes
be_acc-be_bytes zero v h = be_acc-nil 0 ∙ omega arith
be_acc-be_bytes (suc k) v h =
    be_acc-snoc (be_bytes k (v / 256)) (v % 256) 0
    ∙ omega (arith, be_acc-be_bytes k (v / 256) (omega arith))

pub equals_refl : (a : Bytes) → equals a a ≡ true
unfolding equals
equals_refl [] = refl
equals_refl (x ∷ a) = ground (arith, equals_refl a)

pub equals→eq : (a b : Bytes) → equals a b ≡ true → a ≡ b
unfolding equals
equals→eq [] [] h = refl
equals→eq [] (y ∷ b) h = cc
equals→eq (x ∷ a) [] h = cc
equals→eq (x ∷ a) (y ∷ b) h = ground (arith, equals→eq a b)

suc_add : (n m : ℕ) → suc n + m ≡ suc (n + m)
suc_add n m = omega arith

pub alloc-add : (a b : ℕ) → alloc (a + b) ≡ alloc a ++ alloc b
alloc-add zero b = ap alloc {y = b} (omega arith)
alloc-add (suc a) b = ap alloc (suc_add a b) ∙ ap (λ (t : Bytes). 0 ∷ t) (alloc-add a b)

pub drop-zeros :
    (pre : Bytes) (at a b : ℕ) → length pre ≡ at → drop (at + a) (pre ++ alloc (a + b)) ≡ alloc b
drop-zeros pre at a b h =
    rw (alloc-add a b, ← append_assoc pre (alloc a) (alloc b))
      (drop-append (pre ++ alloc a) (alloc b) (at + a)
        (omega (arith, length-append pre (alloc a), length-replicate {A = ℕ} a 0)))

drop-alloc : (k : ℕ) → drop (0 + k) (alloc k) ≡ []
drop-alloc k = rw (drop_all (alloc k) (0 + k) (omega (arith, length-replicate {A = ℕ} k 0)))

-- A write at the start of a fresh buffer of the right size.
pub write-alloc :
    (k v size : ℕ) → size ≡ k → v < 256 ^ k → write_uint_be k v (alloc size) 0 ≡ ok (be_bytes k v)
unfolding write_uint_be
write-alloc k v size e h =
    rw
      (
        e,
        lt→ltb v (256 ^ k) h,
        le→ltb (length (alloc k)) (0 + k) (omega (arith, length-replicate {A = ℕ} k 0)),
      )
      (ap ok (ap (λ (t : Bytes). be_bytes k v ++ t) (drop-alloc k) ∙ append-nil _))

-- A write at the start of a fresh buffer that is longer.
pub write-alloc_front :
    (k v size left : ℕ)
    → size ≡ k + left
    → v < 256 ^ k
    → write_uint_be k v (alloc size) 0 ≡ ok (be_bytes k v ++ alloc left)
unfolding write_uint_be
write-alloc_front k v size left e h =
    rw
      (
        e,
        lt→ltb v (256 ^ k) h,
        le→ltb (length (alloc (k + left))) (0 + k)
            (omega (arith, length-replicate {A = ℕ} (k + left) 0)),
        drop-zeros [] 0 k left refl,
      )
      refl

-- A write behind what has been written, into the zeros that are left.
pub write-zeros :
    (pre : Bytes) (k v left at n : ℕ)
    → at ≡ length pre
    → n ≡ k + left
    → v < 256 ^ k
    → write_uint_be k v (pre ++ alloc n) at ≡ ok ((pre ++ be_bytes k v) ++ alloc left)
unfolding write_uint_be
write-zeros pre k v left at n here sized h =
    rw
      (
        here,
        sized,
        lt→ltb v (256 ^ k) h,
        le→ltb (length (pre ++ alloc (k + left))) (length pre + k) (
            omega
              (arith, length-append pre (alloc (k + left)), length-replicate {A = ℕ} (k + left) 0)),
        take-append pre (alloc (k + left)) (length pre) refl,
        drop-zeros pre (length pre) k left refl,
      )
      (ap ok (sym (append_assoc pre (be_bytes k v) (alloc left))))
