-- ===== src/Histogram.antt =====
-- include/monitoring/latency_histogram.hpp and src/monitoring/latency_histogram.cpp. One thread
-- records, so each call is one step. `buckets` is the memory at `buckets_`, of which the array has
-- the first 512 places.
pub mod Log
pub mod Range
pub mod Resolution
pub mod Percentile
use itch_feed_handler.Common.{
  ℕ, zero, suc, ◌+◌, ◌-◌, ◌*◌, ◌/◌, ◌%◌, ◌^◌, bit_or, ltb, leb, ◌==◌, if◌then◌else◌, update,
}

abbrev pub linear_buckets : ℕ
linear_buckets = 256

abbrev pub log_buckets : ℕ
log_buckets = 256

abbrev pub total_buckets : ℕ
total_buckets = linear_buckets + log_buckets

pub record LatencyHistogram : Type 0 where
  pub buckets : ℕ → ℕ
  pub count : ℕ
  pub max : ℕ

-- `63 - __builtin_clzll(n)` for n > 0, of as many binary digits as the first argument allows.
unfoldable pub floor_log2 : ℕ → ℕ → ℕ
floor_log2 zero n = 0
floor_log2 (suc digits) n = if ltb n 2 then 0 else suc (floor_log2 digits (n / 2))

-- `LatencyHistogram::bucket_for`
unfoldable pub bucket_for : ℕ → ℕ
bucket_for ns =
    let msb = floor_log2 64 ns in
    let sub = (ns / 2 ^ (if ltb 3 msb then msb - 4 else 0)) % 16 in
    if ltb ns linear_buckets
    then ns
    else if leb 32 msb
    then total_buckets - 1
    else linear_buckets + (msb - 7) * 16 + sub

-- `LatencyHistogram::bucket_lower`
unfoldable pub bucket_lower : ℕ → ℕ
bucket_lower b =
    let log_b = b - linear_buckets in
    let msb = log_b / 16 + 7 in
    if ltb b linear_buckets then b else bit_or (1 * 2 ^ msb) (log_b % 16 * 2 ^ (msb - 4))

-- `LatencyHistogram::record`, with nobody else at `max_`
unfoldable pub record_latency : LatencyHistogram → ℕ → LatencyHistogram
record_latency h ns = record {
  buckets = update h.buckets (bucket_for ns) ((h.buckets (bucket_for ns) + 1) % 2 ^ 64);
  count = (h.count + 1) % 2 ^ 64;
  max = if ltb h.max ns then ns else h.max;
}

-- `LatencyHistogram::reset`
unfoldable pub reset : LatencyHistogram → LatencyHistogram
reset h = record {
  buckets = λ i. if ltb i total_buckets then 0 else h.buckets i;
  count = 0;
  max = 0;
}

-- The loop of `percentile`, `left` buckets before its end.
unfoldable pub scan : LatencyHistogram → ℕ → ℕ → ℕ → ℕ → ℕ
scan h target zero i cumulative = h.max
scan h target (suc left) i cumulative =
    let rest = scan h target left (i + 1) (cumulative + h.buckets i) in
    if ltb target (cumulative + h.buckets i) then bucket_lower i else rest

-- `LatencyHistogram::percentile`. The target, `total * p / 100.0` in floating point, is computed by
-- the parameter.
unfoldable pub percentile : (ℕ → ℕ) → LatencyHistogram → ℕ
percentile target_of h = if h.count == 0 then 0 else scan h (target_of h.count) total_buckets 0 0
