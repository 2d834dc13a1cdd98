-- ===== src/Histogram/Percentile.antt =====
-- src/monitoring/latency_histogram.cpp: the percentile that the scan stops at.
use itch_feed_handler.Common.{
  ℕ, zero, suc, ◌+◌, ◌≤◌, ◌<◌, ◌≡◌, ◌≢◌, refl, ap, arith, false, ◌==◌, dec_lt, ℕ_discrete,
}
use itch_feed_handler.Histogram.{LatencyHistogram, total_buckets, bucket_lower, scan, percentile}

-- The observations counted in the buckets below `b`.
abbrev pub below : LatencyHistogram → ℕ → ℕ
below h zero = 0
below h (suc b) = below h b + h.buckets b

-- What the scan promises from bucket `i` on.
abbrev pub Found : LatencyHistogram → ℕ → ℕ → ℕ → Type 0
Found h target last value =
    (b : ℕ) × (b < last)
    × (below h b ≤ target)
    × (target < below h (suc b))
    × (value ≡ bucket_lower b)

scan_step_stop :
    (h : LatencyHistogram) (target left i cumulative : ℕ)
    → target < cumulative + h.buckets i
    → scan h target (suc left) i cumulative ≡ bucket_lower i
unfolding scan
scan_step_stop h target left i cumulative p = ground arith

scan_step_on :
    (h : LatencyHistogram) (target left i cumulative : ℕ)
    → cumulative + h.buckets i ≤ target
    → scan h target (suc left) i cumulative ≡ scan h target left (i + 1) (cumulative + h.buckets i)
unfolding scan
scan_step_on h target left i cumulative p = ground arith

scan_lem :
    (h : LatencyHistogram) (target left i last : ℕ)
    → i + left ≡ last
    → below h i ≤ target
    → target < below h last
    → Found h target last (scan h target left i (below h i))
scan_lem h target zero i last e l u =
    let same : i ≡ last = omega arith in absurd (omega (arith, ap (below h) same))
scan_lem h target (suc left) i last e l u = elim (dec_lt target (below h (suc i))) [
  | yes p ↦ rw (scan_step_stop h target left i (below h i) p) (i, omega arith, l, p, refl)
  | no p ↦
      let next : i + 1 ≡ suc i = omega arith in
      rw (scan_step_on h target left i (below h i) (omega arith), next)
        (scan_lem h target left (suc i) last (omega arith) (omega arith) u)
]

not_empty : (n : ℕ) → n ≢ 0 → (n == 0) ≡ false
not_empty n h = ground arith

-- Where the target is below the number of observations in the buckets, `percentile` returns the
-- lower bound of the one bucket at which the running total passes the target.
pub percentile_lem :
    (target_of : ℕ → ℕ) (h : LatencyHistogram)
    → h.count ≢ 0
    → target_of h.count < below h total_buckets
    → Found h (target_of h.count) total_buckets (percentile target_of h)
unfolding percentile
percentile_lem target_of h c t = elim (ℕ_discrete h.count 0) [
  | yes e ↦ absurd (c e)
  | no ne ↦
      rw (not_empty h.count ne)
        (scan_lem h (target_of h.count) total_buckets 0 total_buckets refl (omega arith) t)
]
