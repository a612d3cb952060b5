-- ===== src/Buffer.antt =====
-- Node's Buffer as the code under services/ and lib/ uses it: a list of bytes, cut by `subarray`,
-- read and written big-endian. A read or a write that does not fit throws, as Node's does.
pub mod Laws
pub mod Fields
use node_ecies_lib.Prelude.{
  ℕ, zero, suc, ◌+◌, ◌-◌, ◌*◌, ◌/◌, ◌%◌, ◌^◌, ◌<◌, Bool, true, false, ◌&&◌, List, [], ◌∷◌, ◌++◌,
  length, take, drop, replicate, All, ltb, ◌==◌, if◌then◌else◌,
}
use node_ecies_lib.Errors.{Result, ok, err, range_error}

abbrev pub Bytes : Type 0
Bytes = List ℕ

abbrev pub IsByte : ℕ → Type 0
IsByte b = b < 256

-- Buffer.alloc(n)
abbrev pub alloc : ℕ → Bytes
alloc n = replicate n 0

-- Buffer.concat(list)
abbrev pub concat : List Bytes → Bytes
concat [] = []
concat (b ∷ bs) = b ++ concat bs

-- data.subarray(from, to) and data.subarray(from), for bounds that are not negative: both bounds
-- are clamped to the length.
unfoldable pub subarray : Bytes → ℕ → ℕ → Bytes
subarray data_ from to = take (to - from) (drop from data_)

unfoldable pub subarray_from : Bytes → ℕ → Bytes
subarray_from data_ from = drop from data_

-- a.equals(b), arraysEqual(a, b)
unfoldable pub equals : Bytes → Bytes → Bool
equals [] [] = true
equals [] (b ∷ bs) = false
equals (a ∷ as_) [] = false
equals (a ∷ as_) (b ∷ bs) = (a == b) && equals as_ bs

-- The number that `acc` and then the bytes spell, most significant byte first.
unfoldable pub be_acc : ℕ → Bytes → ℕ
be_acc acc [] = acc
be_acc acc (b ∷ bs) = be_acc (acc * 256 + b) bs

-- The low `k` bytes of a number, most significant first.
unfoldable pub be_bytes : ℕ → ℕ → Bytes
be_bytes zero v = []
be_bytes (suc k) v = be_bytes k (v / 256) ++ (v % 256 ∷ [])

-- readUInt8, readUInt16BE, readUInt32BE, readBigUInt64BE at `offset`, for k = 1, 2, 4, 8.
unfoldable pub read_uint_be : ℕ → Bytes → ℕ → Result ℕ
unfolding subarray be_acc
read_uint_be k data_ offset =
    if ltb (length data_) (offset + k)
    then err range_error
    else ok (be_acc 0 (subarray data_ offset (offset + k)))

-- The matching writes: the value has to fit `k` bytes and the bytes have to fit the buffer.
unfoldable pub write_uint_be : ℕ → ℕ → Bytes → ℕ → Result Bytes
unfolding be_bytes
write_uint_be k value data_ offset =
    if ltb value (256 ^ k)
    then if ltb (length data_) (offset + k)
      then err range_error
      else ok (take offset data_ ++ (be_bytes k value ++ drop (offset + k) data_))
    else err range_error
