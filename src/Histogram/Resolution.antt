-- ===== src/Histogram/Resolution.antt =====
-- How close the lower bound of its bucket is to a latency.
use itch_feed_handler.Common.{
  ℕ, suc, ◌+◌, ◌-◌, ◌*◌, ◌/◌, ◌%◌, ◌^◌, ◌≤◌, ◌<◌, ◌≡◌, ◌≢◌, arith, bit_or, bit_or_shift, dec_lt,
}
use native.Mathlib.Nat.{pow-suc, one-le-pow, div-add-mod, mod-lt}
use itch_feed_handler.Histogram.{
  LatencyHistogram, total_buckets, floor_log2, bucket_for, bucket_lower, record_latency,
}
use itch_feed_handler.Histogram.Range.{bucket_for-lt}
use itch_feed_handler.Histogram.Log.{floor_log2_bounds, floor_log2-lt, le-floor_log2}

-- The width of the buckets of one octave, 16 of which make up the octave's lower bound.
sixteenth : (e : ℕ) → 2 ^ (4 + e) ≡ 16 * 2 ^ e
sixteenth e =
    let four : 4 + e ≡ suc (suc (suc (suc e))) = omega arith in
    rw four (
      omega (
        arith,
        pow-suc 2 e,
        pow-suc 2 (suc e),
        pow-suc 2 (suc (suc e)),
        pow-suc 2 (suc (suc (suc e))),
      ))

mul-lt-mul : (s p : ℕ) → s < 16 → 0 < p → s * p < 16 * p
mul-lt-mul s p h k = grind arith

-- What `bucket_lower` computes for sub-bucket `sub` of the octave whose lower bound is 2^(4+e).
lower_lem : (e sub : ℕ) → sub < 16 → bit_or (1 * 2 ^ (4 + e)) (sub * 2 ^ e) ≡ (16 + sub) * 2 ^ e
lower_lem e sub h = omega (
  arith,
  sixteenth e,
  bit_or_shift (4 + e) 1 (sub * 2 ^ e)
      (omega (arith, sixteenth e, mul-lt-mul sub (2 ^ e) h (one-le-pow e 2 (omega arith)))),
)

bucket_lower_lem :
    (e sub : ℕ)
    → sub < 16
    → 3 ≤ e
    → bucket_lower (256 + (4 + e - 7) * 16 + sub) ≡ (16 + sub) * 2 ^ e
unfolding bucket_lower
bucket_lower_lem e sub h k = ground (arith, octave, digit, width, lower_lem e sub h)
  where
    octave : (256 + (4 + e - 7) * 16 + sub - 256) / 16 + 7 ≡ 4 + e
    octave = omega arith

    digit : (256 + (4 + e - 7) * 16 + sub - 256) % 16 ≡ sub
    digit = omega arith

    width : 4 + e - 4 ≡ e
    width = omega arith

div_bounds : (ns p : ℕ) → 0 < p → 16 * p ≤ ns → ns < 32 * p → (16 ≤ ns / p) × (ns / p < 32)
div_bounds ns p h l u = grind arith

-- A latency splits into its leading five bits and what they leave out.
leading :
    (ns p : ℕ)
    → 0 < p
    → 16 * p ≤ ns
    → ns < 32 * p
    → ((16 + ns / p % 16) * p ≤ ns) × (ns < (16 + ns / p % 16) * p + p)
leading ns p h l u =
    let five : 16 + ns / p % 16 ≡ ns / p = omega (arith, div_bounds ns p h l u) in
    rw five (omega (arith, div-add-mod ns p, mod-lt ns h))

-- The error of a lower bound `(16 + sub) * p` is below the width `p` of the bucket.
close :
    (ns p sub : ℕ) → (16 + sub) * p ≤ ns → ns < (16 + sub) * p + p → (ns - (16 + sub) * p) * 16 ≤ ns
close ns p sub l u = grind arith

-- A latency of the logarithmic region, by the position of its highest bit.
bucket_for_log :
    (ns e : ℕ)
    → 256 ≤ ns
    → floor_log2 64 ns ≡ 4 + e
    → 4 + e < 32
    → bucket_for ns ≡ 256 + (4 + e - 7) * 16 + ns / 2 ^ e % 16
unfolding bucket_for
bucket_for_log ns e h m b = let width : 4 + e - 4 ≡ e = omega arith in ground (arith, width)

bucket_linear :
    (ns : ℕ)
    → ns < 256
    → let lower = bucket_lower (bucket_for ns) in (lower ≤ ns) × ((ns - lower) * 16 ≤ ns)
unfolding bucket_for bucket_lower
bucket_linear ns h = ground arith

bucket_log :
    (ns e : ℕ)
    → 256 ≤ ns
    → ns < 2 ^ 32
    → floor_log2 64 ns ≡ 4 + e
    → 4 ≤ e
    → 4 + e < 32
    → let lower = bucket_lower (bucket_for ns) in (lower ≤ ns) × ((ns - lower) * 16 ≤ ns)
bucket_log ns e h u m l b =
    let bounds = floor_log2_bounds 64 ns (omega arith) (omega arith) in
    let lead =
      leading ns (2 ^ e) (one-le-pow e 2 (omega arith)) (ground (arith, bounds, sixteenth e))
        (ground (arith, bounds, sixteenth e)) in
    rw (bucket_for_log ns e h m b, bucket_lower_lem e (ns / 2 ^ e % 16) (omega arith) (omega arith))
      (lead.0, close ns (2 ^ e) (ns / 2 ^ e % 16) lead.0 lead.1)

-- The index alone: below 2^32 ns.
bucket_lower_close :
    (ns : ℕ)
    → ns < 2 ^ 32
    → let lower = bucket_lower (bucket_for ns) in (lower ≤ ns) × ((ns - lower) * 16 ≤ ns)
bucket_lower_close ns h = elim (dec_lt ns 256) [
  | yes small ↦ bucket_linear ns small
  | no large ↦
      bucket_log ns (floor_log2 64 ns - 4) (omega arith) h
        (omega (arith, le-floor_log2 64 8 ns (omega arith) (omega arith)))
        (omega (arith, le-floor_log2 64 8 ns (omega arith) (omega arith)))
        (omega (arith, floor_log2-lt 64 31 ns h, le-floor_log2 64 8 ns (omega arith) (omega arith)))
]

-- A latency below 2^23 ns, about 8.4 ms, is counted in exactly one bucket of the array, which grows by
-- one (on 64 bits); it lies at or above the lower bound of that bucket, and exceeds it by a sixteenth of
-- itself at most.
pub bucket_lower-bucket_for :
    (h : LatencyHistogram) (ns : ℕ)
    → ns < 2 ^ 23
    → let k = bucket_for ns in
      let lower = bucket_lower k in
      (k < total_buckets)
      × ((record_latency h ns).buckets k ≡ (h.buckets k + 1) % 2 ^ 64)
      × ((b : ℕ) → b ≢ k → (record_latency h ns).buckets b ≡ h.buckets b)
      × (lower ≤ ns)
      × ((ns - lower) * 16 ≤ ns)
unfolding record_latency
bucket_lower-bucket_for h ns small =
    let (below, near) = bucket_lower_close ns (omega arith) in
    (bucket_for-lt ns small, ground arith, λ b other. ground arith, below, near)
