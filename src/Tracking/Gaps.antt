-- ===== src/Tracking/Gaps.antt =====
-- src/workers/parser_thread.cpp: how a gap fares between the tracker and the detector.
use itch_feed_handler.Common.{◌+◌, ◌^◌, ◌%◌, ◌≤◌, ◌<◌, ◌≡◌, arith, true, false, ◌∷◌}
use itch_feed_handler.Types.{Timestamp}
use itch_feed_handler.Mold.{ParseResult, is_heartbeat}
use itch_feed_handler.Sequence.{try_advance, on_gap, mark_recovered, should_request_recovery}
use itch_feed_handler.Sequence.Advance.{top}
use itch_feed_handler.Tracking.{Tracking, track}

-- A packet that carries messages.
pub record IsData (mold : ParseResult) : Type 0 where
  pub valid : mold.valid ≡ true
  pub messages : is_heartbeat mold.header ≡ false

module _ (s : Tracking) (low : s.tracker.seq < top) where
  -- A packet beyond the next sequence number raises the gap in front of it: the detector holds
  -- exactly the missing range, stamped with the time of detection, and nothing is persisted.
  pub track_gap :
      (p : ParseResult) (now : Timestamp)
      → IsData p
      → s.tracker.gap_count + 1 < 2 ^ 64
      → s.tracker.seq + 1 < p.header.sequence_number
      → let s' = track s p now in
        (s'.detector.pending ≡ true)
        × (s'.detector.gap.start_seq ≡ s.tracker.seq + 1)
        × (s'.detector.gap.end_seq + 1 ≡ p.header.sequence_number)
        × (s'.detector.gap.detected_at_ns ≡ now)
        × (s'.detector.gap.recovery_sent ≡ false)
        × (s'.tracker.seq ≡ p.header.sequence_number)
        × (s'.persisted ≡ s.persisted)
        × (s'.detector.gap_timeout_ns ≡ s.detector.gap_timeout_ns)
  unfolding track try_advance on_gap
  track_gap p now d g h = ground arith

  -- Once a gap has been counted, every repeated packet raises the last gap again, as if it had just
  -- not been asked for, and is counted as a gap and not as a duplicate.
  pub duplicate_raises_gap :
      (p : ParseResult) (now : Timestamp)
      → IsData p
      → 0 < s.tracker.gap_count
      → p.header.sequence_number ≤ s.tracker.seq
      → let s' = track s p now in
        (s'.detector.pending ≡ true)
        × (s'.detector.gap.start_seq ≡ s.tracker.last_gap_start)
        × (s'.detector.gap.end_seq ≡ s.tracker.last_gap_end)
        × (s'.detector.gap.recovery_sent ≡ false)
        × (s'.sequence_gaps ≡ (s.sequence_gaps + 1) % 2 ^ 64)
        × (s'.sequence_dups ≡ s.sequence_dups)
  unfolding track try_advance on_gap
  duplicate_raises_gap p now d g h = ground arith

-- A packet in order moves the tracker on, is handed to the persistent sequence, and tells the
-- detector that all up to it is recovered.
pub track_in_order :
    (s : Tracking) (p : ParseResult) (now : Timestamp)
    → IsData p
    → s.tracker.seq < top
    → p.header.sequence_number ≡ s.tracker.seq + 1
    → track s p now ≡ record s {
      tracker = record (s.tracker) { seq = p.header.sequence_number };
      detector = mark_recovered s.detector p.header.sequence_number;
      persisted = (p.header.sequence_number, p.header.session) ∷ s.persisted;
    }
unfolding track try_advance
track_in_order s p now d h e = ground arith

-- A gap is forgotten by the packet that follows it in order, though none of the missing numbers was
-- received: no retransmission is asked for at any later time.
pub gap_forgotten :
    (s : Tracking) (p q : ParseResult) (now now' later : Timestamp)
    → IsData p
    → IsData q
    → s.tracker.gap_count + 1 < 2 ^ 64
    → s.tracker.seq + 1 < p.header.sequence_number
    → p.header.sequence_number < top
    → q.header.sequence_number ≡ p.header.sequence_number + 1
    → should_request_recovery (track (track s p now) q now').detector later ≡ false
unfolding should_request_recovery mark_recovered
gap_forgotten s p q now now' later dp dq g h w e =
    let gap = track_gap s (omega arith) p now dp g h in
    ground (arith, gap, track_in_order (track s p now) q now' dq)
