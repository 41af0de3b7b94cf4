-- ===== src/Prelude/Bits.antt =====
-- The laws of `&`, `|` and `^` at variables that the components need, from the digit recursions
-- that the native operations stand for: a field shifted above a value that fits below it is added
-- by `|`, and the tests of a single low bit.
use Prim.Native.Nat.{
  ℕ, zero, suc, ◌+◌, ◌*◌, ◌/◌, ◌%◌, ◌^◌, ◌≤◌, ◌<◌, max, digits, bit_or, bit_or-bitwise,
}
use mathlib.Core.Path.{◌≡◌, refl, ap}
use native.Mathlib.Nat.{pow-suc}
use native.Mathlib.Omega.{arith}

abbrev or_digits : ℕ → ℕ → ℕ → ℕ
or_digits n a b = digits (λ b. b) max n a b

-- More rounds than the number has digits change nothing.
or_digits_rounds : (n m a b : ℕ) → a ≤ n → a ≤ m → or_digits n a b ≡ or_digits m a b
or_digits_rounds zero zero a b p q = refl
or_digits_rounds zero (suc m) zero b p q = refl
or_digits_rounds zero (suc m) (suc a) b p q = absurd (omega arith)
or_digits_rounds (suc n) zero zero b p q = refl
or_digits_rounds (suc n) zero (suc a) b p q = absurd (omega arith)
or_digits_rounds (suc n) (suc m) zero b p q = refl
or_digits_rounds (suc n) (suc m) (suc a) b p q =
    omega (arith, or_digits_rounds n m (suc a / 2) (b / 2) (omega arith) (omega arith))

zero-bit_or : (b : ℕ) → bit_or 0 b ≡ b
zero-bit_or b = bit_or-bitwise 0 b

bit_or_step : (a b : ℕ) → bit_or a b ≡ bit_or (a / 2) (b / 2) * 2 + max (a % 2) (b % 2)
bit_or_step zero b = omega (arith, zero-bit_or b, zero-bit_or (b / 2))
bit_or_step (suc a) b = omega (
  arith,
  bit_or-bitwise (suc a) b,
  bit_or-bitwise (suc a / 2) (b / 2),
  or_digits_rounds a (suc a / 2) (suc a / 2) (b / 2) (omega arith) (omega arith),
)

bit_or-zero_rounds : (n a : ℕ) → a ≤ n → bit_or a 0 ≡ a
bit_or-zero_rounds n zero h = refl
bit_or-zero_rounds zero (suc a) h = absurd (omega arith)
bit_or-zero_rounds (suc n) (suc a) h =
    omega (arith, bit_or_step (suc a) 0, bit_or-zero_rounds n (suc a / 2) (omega arith))

bit_or-zero : (a : ℕ) → bit_or a 0 ≡ a
bit_or-zero a = bit_or-zero_rounds a a (omega arith)

double_shift : (q k : ℕ) → q * 2 ^ suc k ≡ 2 * (q * 2 ^ k)
double_shift q k = omega (arith, ap (λ (t : ℕ). q * t) (pow-suc 2 k))

-- `(q << k) | r` and `r | (q << k)` add, where `r` fits in `k` bits.
pub bit_or_above : (k q r : ℕ) → r < 2 ^ k → bit_or (q * 2 ^ k) r ≡ q * 2 ^ k + r
bit_or_above zero q r h = ground (arith, bit_or-zero q)
bit_or_above (suc k) q r h = ground (
  arith,
  bit_or_step (q * 2 ^ suc k) r,
  double_shift q k,
  bit_or_above k q (r / 2) (omega (arith, pow-suc 2 k)),
)

pub bit_or_below : (k q r : ℕ) → r < 2 ^ k → bit_or r (q * 2 ^ k) ≡ r + q * 2 ^ k
bit_or_below zero q r h = ground (arith, zero-bit_or q)
bit_or_below (suc k) q r h = ground (
  arith,
  bit_or_step r (q * 2 ^ suc k),
  double_shift q k,
  bit_or_below k q (r / 2) (omega (arith, pow-suc 2 k)),
)
