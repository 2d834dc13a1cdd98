-- ===== src/Common/Masks.antt =====
-- One bit of a word: `w & (1 << k)` tests it and `w | (1 << k)` sets it, at every width.
use Prim.Native.Nat.{ℕ, zero, suc, ◌+◌, ◌*◌, ◌/◌, ◌%◌, ◌^◌, ◌≤◌, ◌<◌, min, bit_and, bit_or}
use Prim.Native.Nat.{digits, bit_and-bitwise}
use mathlib.Core.Path.{◌≡◌, refl, ap, sym, ◌∙◌}
use mathlib.Core.Logic.{◌≢◌}
use native.Mathlib.Nat.{pow-suc, pow-succ', pow-zero, div-div-eq-div-mul}
use native.Mathlib.Omega.{arith}
use itch_feed_handler.Common.Bits.{lowest, bit_or-zero_count}
use itch_feed_handler.Common.Tests.{◌==◌}

-- The binary digit of a number at a place, 0 or 1.
unfoldable pub digit : ℕ → ℕ → ℕ
digit zero w = w % 2
digit (suc k) w = digit k (w / 2)

pub digit_small : (k w : ℕ) → digit k w < 2
unfolding digit
digit_small zero w = omega arith
digit_small (suc k) w = digit_small k (w / 2)

pub digit-zero : (k : ℕ) → digit k 0 ≡ 0
unfolding digit
digit-zero zero = refl
digit-zero (suc k) = digit-zero k

abbrev and_digits : ℕ → ℕ → ℕ → ℕ
and_digits n a b = digits (λ y. zero) min n a b

and_digits_zero : (n b : ℕ) → and_digits n 0 b ≡ 0
and_digits_zero zero b = refl
and_digits_zero (suc n) b = refl

and_digits_count : (n m a b : ℕ) → a ≤ n → a ≤ m → and_digits n a b ≡ and_digits m a b
and_digits_count n m zero b p q = omega (arith, and_digits_zero n b, and_digits_zero m b)
and_digits_count (suc n) (suc m) (suc a) b p q =
    omega (arith, and_digits_count n m (suc a / 2) (b / 2) (omega arith) (omega arith))
and_digits_count zero m (suc a) b p q = absurd (omega arith)
and_digits_count (suc n) zero (suc a) b p q = absurd (omega arith)

bit_and-lowest : (a b : ℕ) → bit_and a b ≡ bit_and (a / 2) (b / 2) * 2 + min (a % 2) (b % 2)
bit_and-lowest zero b = omega (arith, bit_and-bitwise 0 b, bit_and-bitwise 0 (b / 2))
bit_and-lowest (suc a) b = omega (
  arith,
  bit_and-bitwise (suc a) b,
  bit_and-bitwise (suc a / 2) (b / 2),
  and_digits_count a (suc a / 2) (suc a / 2) (b / 2) (omega arith) (omega arith),
)

bit_and-zero : (n a : ℕ) → a ≤ n → bit_and a 0 ≡ 0
bit_and-zero n zero h = refl
bit_and-zero zero (suc a) h = absurd (omega arith)
bit_and-zero (suc n) (suc a) h =
    omega (arith, bit_and-lowest (suc a) 0, bit_and-zero n (suc a / 2) (omega arith))

-- The test of a bit is zero exactly when the digit is.
pub bit_and-pow : (k w : ℕ) → (bit_and w (2 ^ k) == 0) ≡ (digit k w == 0)
unfolding digit
bit_and-pow zero w =
    ground (arith, bit_and-lowest w 1, bit_and-zero (w / 2) (w / 2) (omega arith), pow-zero 2)
bit_and-pow (suc k) w =
    ground (arith, bit_and-lowest w (2 ^ suc k), pow-suc 2 k, bit_and-pow k (w / 2))

-- Setting a bit sets that digit.
pub digit-bit_or_self : (k w : ℕ) → digit k (bit_or w (2 ^ k)) ≡ 1
unfolding digit
digit-bit_or_self zero w = ground (arith, lowest w 1, pow-zero 2)
digit-bit_or_self (suc k) w =
    let half : bit_or w (2 ^ suc k) / 2 ≡ bit_or (w / 2) (2 ^ k) =
      ground (arith, lowest w (2 ^ suc k), pow-suc 2 k) in
    ground (arith, digit-bit_or_self k (w / 2), ap (digit k) half)

-- Setting a bit leaves every other digit.
pub digit-bit_or_ne : (j k w : ℕ) → j ≢ k → digit j (bit_or w (2 ^ k)) ≡ digit j w
unfolding digit
digit-bit_or_ne zero zero w h = absurd (h refl)
digit-bit_or_ne zero (suc k) w h = ground (arith, lowest w (2 ^ suc k), pow-suc 2 k)
digit-bit_or_ne (suc j) zero w h =
    let half : bit_or w (2 ^ zero) / 2 ≡ w / 2 =
      ground (arith, lowest w 1, bit_or-zero_count (w / 2) (w / 2) (omega arith), pow-zero 2) in
    ground (arith, ap (digit j) half)
digit-bit_or_ne (suc j) (suc k) w h =
    let half : bit_or w (2 ^ suc k) / 2 ≡ bit_or (w / 2) (2 ^ k) =
      ground (arith, lowest w (2 ^ suc k), pow-suc 2 k) in
    ground (arith, digit-bit_or_ne j k (w / 2) (λ e. h (ap suc e)), ap (digit j) half)

-- `(w >> k) & 1` is the digit.
pub bit_and-shifted : (k w : ℕ) → bit_and (w / 2 ^ k) 1 ≡ digit k w
unfolding digit
bit_and-shifted zero w =
    let whole : w / 2 ^ zero ≡ w = ground (arith, pow-zero 2) in
    rw whole (omega (arith, bit_and-lowest w 1, bit_and-zero (w / 2) (w / 2) (omega arith)))
bit_and-shifted (suc k) w =
    let halved : w / 2 ^ suc k ≡ w / 2 / 2 ^ k =
      ap (λ (t : ℕ). w / t) (pow-succ' 2 k) ∙ sym (div-div-eq-div-mul w 2 (2 ^ k)) in
    rw halved (bit_and-shifted k (w / 2))
