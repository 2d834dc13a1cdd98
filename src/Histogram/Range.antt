-- ===== src/Histogram/Range.antt =====
-- Which latencies have a bucket of the array.
use itch_feed_handler.Common.{ℕ, ◌-◌, ◌^◌, ◌≤◌, ◌<◌, ◌≡◌, arith}
use itch_feed_handler.Histogram.{LatencyHistogram, total_buckets, bucket_for, record_latency}
use itch_feed_handler.Histogram.Log.{floor_log2-lt, le-floor_log2}

-- Below 2^23 ns, about 8.4 ms, the bucket is one of the array.
pub bucket_for-lt : (ns : ℕ) → (ns < 2 ^ 23) → bucket_for ns < total_buckets
unfolding bucket_for
bucket_for-lt ns h = ground (arith, floor_log2-lt 64 22 ns h)

pub bucket_for_capped : (ns : ℕ) → 2 ^ 32 ≤ ns → bucket_for ns ≡ total_buckets - 1
unfolding bucket_for
bucket_for_capped ns h = ground (arith, le-floor_log2 64 32 ns (omega arith) h)

out_of_range_lem : (ns : ℕ) → 2 ^ 23 ≤ ns → ns < 2 ^ 32 → total_buckets ≤ bucket_for ns
unfolding bucket_for
out_of_range_lem ns l u =
    ground (arith, le-floor_log2 64 23 ns (omega arith) l, floor_log2-lt 64 31 ns u)

-- In between lies no latency whose bucket is in the array: `record` counts it in memory behind it,
-- and in none of the buckets that the percentiles are computed from.
pub bucket_for_out_of_range :
    (h : LatencyHistogram) (ns : ℕ)
    → 2 ^ 23 ≤ ns
    → ns < 2 ^ 32
    → (total_buckets ≤ bucket_for ns)
      × ((b : ℕ) → b < total_buckets → (record_latency h ns).buckets b ≡ h.buckets b)
unfolding record_latency
bucket_for_out_of_range h ns l u = (beyond, λ b q. ground (arith, beyond))
  where
    beyond : total_buckets ≤ bucket_for ns
    beyond = out_of_range_lem ns l u
