-- ===== src/Examples/Latency.antt =====
-- The theorems on latencies at concrete values.
use itch_feed_handler.Common.{ℕ, ◌+◌, ◌-◌, ◌*◌, ◌%◌, ◌^◌, ◌<◌, ◌≤◌, ◌≡◌, ◌≢◌, arith}
use itch_feed_handler.Histogram.{
  LatencyHistogram, total_buckets, bucket_for, bucket_lower, record_latency,
}
use itch_feed_handler.Histogram.Resolution.{bucket_lower-bucket_for}

-- One observation in every bucket.
abbrev histogram : LatencyHistogram
histogram = record { buckets = λ i. 1; count = 512; max = 1000 }

bucket_lower-bucket_for_example :
    let k = bucket_for 5000 in
    let lower = bucket_lower k in
    (k < total_buckets)
    × ((record_latency histogram 5000).buckets k ≡ (histogram.buckets k + 1) % 2 ^ 64)
    × ((b : ℕ) → b ≢ k → (record_latency histogram 5000).buckets b ≡ histogram.buckets b)
    × (lower ≤ 5000)
    × ((5000 - lower) * 16 ≤ 5000)
bucket_lower-bucket_for_example = bucket_lower-bucket_for histogram 5000 (omega arith)
