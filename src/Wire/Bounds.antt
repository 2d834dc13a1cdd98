-- ===== src/Wire/Bounds.antt =====
-- The big-endian reads as sums, their bounds, and the bytes that they read.
use itch_feed_handler.Common.{
  ℕ, ◌+◌, ◌*◌, ◌^◌, ◌<◌, ◌≡◌, arith, bit_or, bit_or_shift, Memory, IsBytes,
}
use itch_feed_handler.Wire.{be16, be32, be48, be64}

-- `a | r` where `r` fits below the lowest digit of `a`.
bit_or_add : (k q a r : ℕ) → a ≡ q * 2 ^ k → r < 2 ^ k → bit_or a r ≡ a + r
bit_or_add k q a r e h = ground (arith, bit_or_shift k q r h)

-- The first `n` bytes are below 256.
abbrev pub BytesBelow : ℕ → Memory → Type 0
BytesBelow n p = (i : ℕ) → i < n → p i < 256

pub be16_lem : (p : Memory) → BytesBelow 2 p → be16 p ≡ p 0 * 2 ^ 8 + p 1
unfolding be16
be16_lem p b =
    rw (bit_or_add 8 (p 0) (p 0 * 2 ^ 8) (p 1) (omega arith) (omega (arith, b 1 (omega arith))))

pub be32_lem :
    (p : Memory) → BytesBelow 4 p → be32 p ≡ p 0 * 2 ^ 24 + p 1 * 2 ^ 16 + p 2 * 2 ^ 8 + p 3
unfolding be32
be32_lem p b = rw (
  bit_or_add 24 (p 0) (p 0 * 2 ^ 24) (p 1 * 2 ^ 16) (omega arith)
      (omega (arith, b 1 (omega arith))),
  bit_or_add 16 (p 0 * 2 ^ 8 + p 1) (p 0 * 2 ^ 24 + p 1 * 2 ^ 16) (p 2 * 2 ^ 8) (omega arith)
      (omega (arith, b 2 (omega arith))),
  bit_or_add 8 (p 0 * 2 ^ 16 + p 1 * 2 ^ 8 + p 2) (p 0 * 2 ^ 24 + p 1 * 2 ^ 16 + p 2 * 2 ^ 8) (p 3)
      (omega arith) (omega (arith, b 3 (omega arith))),
)

pub be48_lem :
    (p : Memory)
    → BytesBelow 6 p
    → be48 p ≡ p 0 * 2 ^ 40 + p 1 * 2 ^ 32 + p 2 * 2 ^ 24 + p 3 * 2 ^ 16 + p 4 * 2 ^ 8 + p 5
unfolding be48
be48_lem p b = rw (
  bit_or_add 40 (p 0) (p 0 * 2 ^ 40) (p 1 * 2 ^ 32) (omega arith)
      (omega (arith, b 1 (omega arith))),
  bit_or_add 32 (p 0 * 2 ^ 8 + p 1) (p 0 * 2 ^ 40 + p 1 * 2 ^ 32) (p 2 * 2 ^ 24) (omega arith)
      (omega (arith, b 2 (omega arith))),
  bit_or_add 24 (p 0 * 2 ^ 16 + p 1 * 2 ^ 8 + p 2) (p 0 * 2 ^ 40 + p 1 * 2 ^ 32 + p 2 * 2 ^ 24)
      (p 3 * 2 ^ 16) (omega arith) (omega (arith, b 3 (omega arith))),
  bit_or_add 16 (p 0 * 2 ^ 24 + p 1 * 2 ^ 16 + p 2 * 2 ^ 8 + p 3)
      (p 0 * 2 ^ 40 + p 1 * 2 ^ 32 + p 2 * 2 ^ 24 + p 3 * 2 ^ 16) (p 4 * 2 ^ 8) (omega arith)
      (omega (arith, b 4 (omega arith))),
  bit_or_add 8 (p 0 * 2 ^ 32 + p 1 * 2 ^ 24 + p 2 * 2 ^ 16 + p 3 * 2 ^ 8 + p 4)
      (p 0 * 2 ^ 40 + p 1 * 2 ^ 32 + p 2 * 2 ^ 24 + p 3 * 2 ^ 16 + p 4 * 2 ^ 8) (p 5) (omega arith)
      (omega (arith, b 5 (omega arith))),
)

pub be64_lem :
    (p : Memory)
    → BytesBelow 8 p
    → be64 p
      ≡ p 0 * 2 ^ 56
        + p 1 * 2 ^ 48
        + p 2 * 2 ^ 40
        + p 3 * 2 ^ 32
        + p 4 * 2 ^ 24
        + p 5 * 2 ^ 16
        + p 6 * 2 ^ 8
        + p 7
unfolding be64
be64_lem p b = rw (
  bit_or_add 56 (p 0) (p 0 * 2 ^ 56) (p 1 * 2 ^ 48) (omega arith)
      (omega (arith, b 1 (omega arith))),
  bit_or_add 48 (p 0 * 2 ^ 8 + p 1) (p 0 * 2 ^ 56 + p 1 * 2 ^ 48) (p 2 * 2 ^ 40) (omega arith)
      (omega (arith, b 2 (omega arith))),
  bit_or_add 40 (p 0 * 2 ^ 16 + p 1 * 2 ^ 8 + p 2) (p 0 * 2 ^ 56 + p 1 * 2 ^ 48 + p 2 * 2 ^ 40)
      (p 3 * 2 ^ 32) (omega arith) (omega (arith, b 3 (omega arith))),
  bit_or_add 32 (p 0 * 2 ^ 24 + p 1 * 2 ^ 16 + p 2 * 2 ^ 8 + p 3)
      (p 0 * 2 ^ 56 + p 1 * 2 ^ 48 + p 2 * 2 ^ 40 + p 3 * 2 ^ 32) (p 4 * 2 ^ 24) (omega arith)
      (omega (arith, b 4 (omega arith))),
  bit_or_add 24 (p 0 * 2 ^ 32 + p 1 * 2 ^ 24 + p 2 * 2 ^ 16 + p 3 * 2 ^ 8 + p 4)
      (p 0 * 2 ^ 56 + p 1 * 2 ^ 48 + p 2 * 2 ^ 40 + p 3 * 2 ^ 32 + p 4 * 2 ^ 24) (p 5 * 2 ^ 16)
      (omega arith) (omega (arith, b 5 (omega arith))),
  bit_or_add 16 (p 0 * 2 ^ 40 + p 1 * 2 ^ 32 + p 2 * 2 ^ 24 + p 3 * 2 ^ 16 + p 4 * 2 ^ 8 + p 5)
      (p 0 * 2 ^ 56 + p 1 * 2 ^ 48 + p 2 * 2 ^ 40 + p 3 * 2 ^ 32 + p 4 * 2 ^ 24 + p 5 * 2 ^ 16)
      (p 6 * 2 ^ 8) (omega arith) (omega (arith, b 6 (omega arith))),
  bit_or_add 8
      (p 0 * 2 ^ 48 + p 1 * 2 ^ 40 + p 2 * 2 ^ 32 + p 3 * 2 ^ 24 + p 4 * 2 ^ 16 + p 5 * 2 ^ 8 + p 6)
      (p 0 * 2 ^ 56
        + p 1 * 2 ^ 48
        + p 2 * 2 ^ 40
        + p 3 * 2 ^ 32
        + p 4 * 2 ^ 24
        + p 5 * 2 ^ 16
        + p 6 * 2 ^ 8)
      (p 7) (omega arith) (omega (arith, b 7 (omega arith))),
)

pub be16-lt : (p : Memory) → IsBytes p → be16 p < 2 ^ 16
be16-lt p b = omega (arith, be16_lem p (λ i h. b i), b 0, b 1)

pub be32-lt : (p : Memory) → IsBytes p → be32 p < 2 ^ 32
be32-lt p b = omega (arith, be32_lem p (λ i h. b i), b 0, b 1, b 2, b 3)

pub be48-lt : (p : Memory) → IsBytes p → be48 p < 2 ^ 48
be48-lt p b = omega (arith, be48_lem p (λ i h. b i), b 0, b 1, b 2, b 3, b 4, b 5)

pub be64-lt : (p : Memory) → IsBytes p → be64 p < 2 ^ 64
be64-lt p b = omega (arith, be64_lem p (λ i h. b i), b 0, b 1, b 2, b 3, b 4, b 5, b 6, b 7)
