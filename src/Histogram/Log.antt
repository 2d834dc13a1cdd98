-- ===== src/Histogram/Log.antt =====
-- The position of the highest bit, bracketed by powers of two.
use itch_feed_handler.Common.{ℕ, zero, suc, ◌*◌, ◌/◌, ◌^◌, ◌≤◌, ◌<◌, arith, dec_lt}
use native.Mathlib.Nat.{pow-suc, one-le-pow}
use itch_feed_handler.Histogram.{floor_log2}

-- Enough digits: the bracket holds.
pub floor_log2_bounds :
    (digits n : ℕ)
    → 0 < n
    → n < 2 ^ suc digits
    → (2 ^ floor_log2 digits n ≤ n) × (n < 2 * 2 ^ floor_log2 digits n)
unfolding floor_log2
floor_log2_bounds zero n h k = omega arith
floor_log2_bounds (suc digits) n h k = elim (dec_lt n 2) [
  | yes p ↦ ground arith
  | no p ↦ ground (
    arith,
    pow-suc 2 (suc digits),
    pow-suc 2 (floor_log2 digits (n / 2)),
    floor_log2_bounds digits (n / 2) (omega arith) (omega (arith, pow-suc 2 (suc digits))),
  )
]

pub floor_log2-lt : (digits k n : ℕ) → n < 2 ^ suc k → floor_log2 digits n ≤ k
unfolding floor_log2
floor_log2-lt zero k n h = omega arith
floor_log2-lt (suc digits) zero n h = ground arith
floor_log2-lt (suc digits) (suc k) n h =
    ground (arith, floor_log2-lt digits k (n / 2) (omega (arith, pow-suc 2 (suc k))))

pub le-floor_log2 : (digits k n : ℕ) → k ≤ digits → 2 ^ k ≤ n → k ≤ floor_log2 digits n
unfolding floor_log2
le-floor_log2 digits zero n d h = omega arith
le-floor_log2 zero (suc k) n d h = absurd (omega arith)
le-floor_log2 (suc digits) (suc k) n d h = ground (
  arith,
  pow-suc 2 k,
  one-le-pow k 2,
  le-floor_log2 digits k (n / 2) (omega arith) (omega (arith, pow-suc 2 k)),
)
