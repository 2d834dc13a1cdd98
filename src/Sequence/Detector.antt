-- ===== src/Sequence/Detector.antt =====
-- src/recovery/gap_detector.cpp: when a retransmission is asked for.
use itch_feed_handler.Common.{ℕ, ◌+◌, ◌^◌, ◌≤◌, ◌<◌, ◌≡◌, ◌↔◌, arith, true, false}
use itch_feed_handler.Types.{Timestamp}
use itch_feed_handler.Sequence.{
  GapInfo, GapDetector, on_gap, mark_recovered, mark_recovery_sent, should_request_recovery,
}

-- After a gap is reported, and while no time before it is asked about, a retransmission is wanted
-- exactly when the timeout has passed; once it is sent, it is not wanted again.
pub on_gap-should_request_recovery :
    (d : GapDetector) (g : GapInfo) (now : Timestamp)
    → g.detected_at_ns ≤ now
    → now < 2 ^ 64
    → ((should_request_recovery (on_gap d g) now ≡ true)
        ↔ (g.detected_at_ns + d.gap_timeout_ns ≤ now))
      × (should_request_recovery (mark_recovery_sent (on_gap d g)) now ≡ false)
unfolding on_gap mark_recovery_sent should_request_recovery
on_gap-should_request_recovery d g now h w = ((λ q. ground arith, λ q. ground arith), ground arith)

-- `mark_recovered` drops a pending gap exactly when it is told of a number at the gap's end or
-- beyond, and otherwise changes nothing.
pub mark_recovered_lem :
    (d : GapDetector) (n : ℕ)
    → d.pending ≡ true
    → ((d.gap.end_seq ≤ n) ↔ ((mark_recovered d n).pending ≡ false))
      × (n < d.gap.end_seq → mark_recovered d n ≡ d)
unfolding mark_recovered
mark_recovered_lem d n p = ((λ q. ground arith, λ q. ground arith), λ q. ground arith)
