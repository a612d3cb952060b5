-- ===== src/Prelude/Bits.antt =====
-- `|`, `&` and `^` on natural numbers, as far as the code's masks and fields need them.
use Prim.Native.Nat.{
  ℕ, zero, suc, ◌+◌, ◌-◌, ◌*◌, ◌/◌, ◌%◌, ◌^◌, ◌≤◌, ◌<◌, min, max, digits, bitwise, bit_and, bit_or,
  bit_and-bitwise, bit_or-bitwise,
}
use mathlib.Core.Path.{◌≡◌, refl, ap}
use native.Mathlib.Nat.{le_refl, one-le-pow, pow-suc}
use native.Mathlib.Omega.{arith}

-- The native operations stand for a recursion on binary digits, whose fuel does not matter.
module _ (rest : ℕ → ℕ) (op : ℕ → ℕ → ℕ) where
  digits_fuel : (k l x y : ℕ) → x ≤ k → x ≤ l → digits rest op k x y ≡ digits rest op l x y
  digits_fuel zero zero x y hk hl = refl
  digits_fuel (suc k) (suc l) zero y hk hl = refl
  digits_fuel (suc k) (suc l) (suc x) y hk hl =
      rw (digits_fuel k l (suc x / 2) (y / 2) (omega arith) (omega arith))
  digits_fuel zero (suc l) zero y hk hl = refl
  digits_fuel (suc k) zero zero y hk hl = refl
  digits_fuel zero (suc l) (suc x) y hk hl = absurd (omega (arith, hk))
  digits_fuel (suc k) zero (suc x) y hk hl = absurd (omega (arith, hl))

  last_digit :
      (x y : ℕ)
      → bitwise rest op (suc x) y ≡ 2 * bitwise rest op (suc x / 2) (y / 2) + op (suc x % 2) (y % 2)
  last_digit x y = omega (
    arith,
    le_refl (suc x / 2),
    digits_fuel x (suc x / 2) (suc x / 2) (y / 2) (omega arith) (omega arith),
  )

bit_and_step : (x y : ℕ) → bit_and x y ≡ 2 * bit_and (x / 2) (y / 2) + min (x % 2) (y % 2)
bit_and_step zero y = simp bit_and-bitwise (omega arith)
bit_and_step (suc x) y = simp bit_and-bitwise (last_digit (λ d. 0) min x y)

bit_or_step : (x y : ℕ) → bit_or x y ≡ 2 * bit_or (x / 2) (y / 2) + max (x % 2) (y % 2)
bit_or_step zero y = simp bit_or-bitwise (omega arith)
bit_or_step (suc x) y = simp bit_or-bitwise (last_digit (λ d. d) max x y)

no_digits : (fuel a : ℕ) → a ≤ fuel → (bit_or a 0 ≡ a) × (bit_and a 0 ≡ 0)
no_digits fuel zero h = omega (arith, bit_or-bitwise 0 0, bit_and-bitwise 0 0)
no_digits zero (suc a) h = absurd (omega arith)
no_digits (suc fuel) (suc a) h =
    omega (
      arith,
      bit_or_step (suc a) 0,
      bit_and_step (suc a) 0,
      no_digits fuel (suc a / 2) (omega arith),
    )

shift_out : (hi k : ℕ) → hi * 2 ^ suc k ≡ 2 * (hi * 2 ^ k)
shift_out hi k = omega (arith, ap (λ (p : ℕ). hi * p) (pow-suc 2 k))

-- A number above k free bits, joined with one that fits them.
pub bit_or_shifted : (k hi lo : ℕ) → lo < 2 ^ k → bit_or (hi * 2 ^ k) lo ≡ hi * 2 ^ k + lo
bit_or_shifted zero hi lo h = ground (arith, no_digits (hi * 1) (hi * 1) (le_refl _))
bit_or_shifted (suc k) hi lo h = ground (
  arith,
  shift_out hi k,
  bit_or_step (hi * 2 ^ suc k) lo,
  bit_or_shifted k hi (lo / 2) (omega arith),
)

bit_and_ones_split : (k hi lo : ℕ) → lo < 2 ^ k → bit_and (hi * 2 ^ k + lo) (2 ^ k - 1) ≡ lo
bit_and_ones_split zero hi lo h =
    rw (no_digits (hi * 1 + lo) (hi * 1 + lo) (le_refl _)).1 (omega arith)
bit_and_ones_split (suc k) hi lo h = ground (
  arith,
  one-le-pow k 2,
  pow-suc 2 k,
  shift_out hi k,
  bit_and_step (hi * 2 ^ suc k + lo) (2 ^ suc k - 1),
  bit_and_ones_split k hi (lo / 2) (omega arith),
)

-- A mask of k ones keeps the low k bits.
pub bit_and_ones : (k a : ℕ) → bit_and a (2 ^ k - 1) ≡ a % 2 ^ k
bit_and_ones k a = ground (arith, one-le-pow k 2, bit_and_ones_split k (a / 2 ^ k) (a % 2 ^ k))
