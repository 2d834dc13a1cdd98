-- ===== src/Common/Bits.antt =====
-- `|` of a shifted number and one that fits below it, as a sum, at every width.
use Prim.Native.Nat.{ℕ, zero, suc, ◌+◌, ◌*◌, ◌/◌, ◌%◌, ◌^◌, ◌≤◌, ◌<◌, max}
use Prim.Native.Nat.{bit_or, digits, bit_or-bitwise}
use mathlib.Core.Path.{◌≡◌, refl, ap}
use native.Mathlib.Nat.{pow-suc}
use native.Mathlib.Omega.{arith}

abbrev or_digits : ℕ → ℕ → ℕ → ℕ
or_digits n a b = digits (λ y. y) max n a b

or_digits_zero : (n b : ℕ) → or_digits n 0 b ≡ b
or_digits_zero zero b = refl
or_digits_zero (suc n) b = refl

-- Any count of digits that covers the first number gives the same result.
or_digits_count : (n m a b : ℕ) → a ≤ n → a ≤ m → or_digits n a b ≡ or_digits m a b
or_digits_count n m zero b p q = omega (arith, or_digits_zero n b, or_digits_zero m b)
or_digits_count zero m (suc a) b p q = absurd (omega arith)
or_digits_count (suc n) zero (suc a) b p q = absurd (omega arith)
or_digits_count (suc n) (suc m) (suc a) b p q =
    omega (arith, or_digits_count n m (suc a / 2) (b / 2) (omega arith) (omega arith))

-- The lowest digit apart.
pub lowest : (a b : ℕ) → bit_or a b ≡ bit_or (a / 2) (b / 2) * 2 + max (a % 2) (b % 2)
lowest zero b = omega (arith, bit_or-bitwise 0 b, bit_or-bitwise 0 (b / 2))
lowest (suc a) b = omega (
  arith,
  bit_or-bitwise (suc a) b,
  bit_or-bitwise (suc a / 2) (b / 2),
  or_digits_count a (suc a / 2) (suc a / 2) (b / 2) (omega arith) (omega arith),
)

pub bit_or-zero_count : (n a : ℕ) → a ≤ n → bit_or a 0 ≡ a
bit_or-zero_count n zero h = refl
bit_or-zero_count zero (suc a) h = absurd (omega arith)
bit_or-zero_count (suc n) (suc a) h =
    omega (arith, lowest (suc a) 0, bit_or-zero_count n (suc a / 2) (omega arith))

double_shift : (q k : ℕ) → q * 2 ^ suc k ≡ 2 * (q * 2 ^ k)
double_shift q k = omega (arith, ap (λ (t : ℕ). q * t) (pow-suc 2 k))

-- `(q << k) | r` is a sum when `r` has at most `k` digits.
pub bit_or_shift : (k q r : ℕ) → r < 2 ^ k → bit_or (q * 2 ^ k) r ≡ q * 2 ^ k + r
bit_or_shift zero q r h = ground (arith, bit_or-zero_count q q (omega arith))
bit_or_shift (suc k) q r h = ground (
  arith,
  lowest (q * 2 ^ suc k) r,
  double_shift q k,
  pow-suc 2 k,
  bit_or_shift k q (r / 2) (omega (arith, pow-suc 2 k)),
)
