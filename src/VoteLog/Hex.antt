-- ===== src/VoteLog/Hex.antt =====
-- The hexadecimal detour of a value: padded digits are the value's bytes.
use node_ecies_lib.Prelude.{
  ℕ, zero, suc, ◌+◌, ◌-◌, ◌*◌, ◌/◌, ◌%◌, ◌^◌, ◌<◌, ◌≤◌, ◌≡◌, refl, sym, ap, ◌∙◌, true, List, [],
  ◌∷◌, ◌++◌, length, length-append, append_assoc, append-nil, Bool-cases, inl, inr, replicate,
  arith, ◌==◌,
}
use node_ecies_lib.Buffer.{Bytes, be_bytes}
use node_ecies_lib.VoteLog.Entry.{hex_loop, to_hex, pad_start, from_hex, value_bytes}

-- The low `k` digits of a number, most significant first.
unfoldable nibbles : ℕ → ℕ → List ℕ
nibbles zero v = []
nibbles (suc k) v = nibbles k (v / 16) ++ (v % 16 ∷ [])

length-nibbles : (k v : ℕ) → length (nibbles k v) ≡ k
unfolding nibbles
length-nibbles zero v = refl
length-nibbles (suc k) v =
    length-append (nibbles k (v / 16)) _ ∙ omega (arith, length-nibbles k (v / 16))

-- `n` zeros.
abbrev zeros : ℕ → List ℕ
zeros n = replicate n 0

replicate-snoc : (k : ℕ) → zeros k ++ (0 ∷ []) ≡ zeros (suc k)
replicate-snoc zero = refl
replicate-snoc (suc k) = ap (λ (t : List ℕ). 0 ∷ t) (replicate-snoc k)

nibbles-zero : (k : ℕ) → nibbles k 0 ≡ zeros k
unfolding nibbles
nibbles-zero zero = refl
nibbles-zero (suc k) = ap (λ (t : List ℕ). t ++ (0 ∷ [])) (nibbles-zero k) ∙ replicate-snoc k

hex_loop-zero : (fuel : ℕ) → hex_loop fuel 0 ≡ []
unfolding hex_loop
hex_loop-zero zero = refl
hex_loop-zero (suc fuel) = refl

hex_loop-suc :
    (fuel v : ℕ) → 0 < v → hex_loop (suc fuel) v ≡ hex_loop fuel (v / 16) ++ (v % 16 ∷ [])
unfolding hex_loop
hex_loop-suc fuel v h = ground arith

pad_none : (k : ℕ) → pad_start k [] ≡ nibbles k 0
unfolding pad_start
pad_none k =
    ap (λ (n : ℕ). zeros n ++ []) {y = k} (omega arith)
    ∙ append-nil (zeros k)
    ∙ sym (nibbles-zero k)

pad_zero : (k fuel v : ℕ) → v ≡ 0 → pad_start k (hex_loop fuel v) ≡ nibbles k v
pad_zero k fuel v e = rw e (ap (pad_start k) (hex_loop-zero fuel) ∙ pad_none k)

pad_start-snoc :
    (k : ℕ) (xs : List ℕ) (x : ℕ) → pad_start (suc k) (xs ++ (x ∷ [])) ≡ pad_start k xs ++ (x ∷ [])
unfolding pad_start
pad_start-snoc k xs x =
    let same : suc k - length (xs ++ (x ∷ [])) ≡ k - length xs =
      omega (arith, length-append xs (x ∷ [])) in
    ap (λ (n : ℕ). zeros n ++ (xs ++ (x ∷ []))) same
    ∙ sym (append_assoc (zeros (k - length xs)) xs (x ∷ []))

-- The digits of a number that fits, padded, are all the digits.
pad_start-hex_loop :
    (k fuel v : ℕ) → v ≤ fuel → v < 16 ^ k → pad_start k (hex_loop fuel v) ≡ nibbles k v
unfolding nibbles
pad_start-hex_loop zero fuel v f h =
    ap (λ (n : ℕ). pad_start 0 (hex_loop fuel n)) {y = 0} (omega arith)
    ∙ ap (pad_start 0) (hex_loop-zero fuel)
    ∙ pad_none 0
pad_start-hex_loop (suc k) zero v f h = pad_zero (suc k) 0 v (omega arith)
pad_start-hex_loop (suc k) (suc fuel) v f h = elim (Bool-cases (v == 0)) [
  | inl e ↦ pad_zero (suc k) (suc fuel) v (ground arith)
  | inr e ↦
      ap (pad_start (suc k)) (hex_loop-suc fuel v (ground arith))
      ∙ pad_start-snoc k (hex_loop fuel (v / 16)) (v % 16)
      ∙ ap (λ (t : List ℕ). t ++ (v % 16 ∷ []))
          (pad_start-hex_loop k fuel (v / 16) (ground arith) (omega arith))
]

from_hex-pair :
    (k : ℕ) (xs : List ℕ) (a b : ℕ)
    → length xs ≡ k + k
    → from_hex (xs ++ (a ∷ b ∷ [])) ≡ from_hex xs ++ ((a * 16 + b) ∷ [])
unfolding from_hex
from_hex-pair k [] a b h = refl
from_hex-pair k (x ∷ []) a b h = absurd (omega arith)
from_hex-pair zero (x ∷ y ∷ xs) a b h = absurd (omega arith)
from_hex-pair (suc k) (x ∷ y ∷ xs) a b h =
    ap (λ (t : Bytes). (x * 16 + y) ∷ t) (from_hex-pair k xs a b (omega arith))

from_hex-nibbles : (k v : ℕ) → from_hex (nibbles (k + k) v) ≡ be_bytes k v
unfolding nibbles be_bytes from_hex
from_hex-nibbles zero v = refl
from_hex-nibbles (suc k) v =
    ap (λ (n : ℕ). from_hex (nibbles n v)) {x = suc k + suc k} {y = suc (suc (k + k))} (omega arith)
    ∙ ap from_hex (append_assoc (nibbles (k + k) (v / 16 / 16)) (v / 16 % 16 ∷ []) (v % 16 ∷ []))
    ∙ from_hex-pair k (nibbles (k + k) (v / 16 / 16)) (v / 16 % 16) (v % 16)
        (length-nibbles (k + k) (v / 16 / 16))
    ∙ ap (λ (b : ℕ). from_hex (nibbles (k + k) (v / 16 / 16)) ++ (b ∷ [])) {y = v % 256}
        (omega arith)
    ∙ ap (λ (n : ℕ). from_hex (nibbles (k + k) n) ++ (v % 256 ∷ [])) {y = v / 256} (omega arith)
    ∙ ap (λ (t : Bytes). t ++ (v % 256 ∷ [])) (from_hex-nibbles k (v / 256))

-- A value below 2 ^ 256 is written as its 32 bytes.
pub value_bytes_lem : (v : ℕ) → v < 256 ^ 32 → value_bytes v ≡ be_bytes 32 v
unfolding value_bytes to_hex nibbles
value_bytes_lem v h = elim (Bool-cases (v == 0)) [
  | inl e ↦ rw (zero_of v e) (from_hex-nibbles 32 0)
  | inr e ↦
      rw e (
        ap from_hex (pad_start-hex_loop 64 v v (omega arith) (omega arith)) ∙ from_hex-nibbles 32 v)
]
  where
    zero_of : (v : ℕ) → (v == 0) ≡ true → v ≡ 0
    zero_of v e = ground arith
