-- ===== src/Examples/Packets.antt =====
-- The theorems on sequence numbers at concrete packets.
use itch_feed_handler.Common.{ℕ, ◌≡◌, arith, true, false, refl, List, [], ◌∷◌}
use itch_feed_handler.Types.{Timestamp}
use itch_feed_handler.Mold.{ParseResult}
use itch_feed_handler.Sequence.{
  GapInfo, SequenceTracker, GapDetector, no_gap, should_request_recovery,
}
use itch_feed_handler.Sequence.Advance.{run, highest, seq-run}
use itch_feed_handler.Tracking.{Tracking, track}
use itch_feed_handler.Tracking.Gaps.{IsData, gap_forgotten}

-- At number 10, after one gap.
abbrev pub tracker : SequenceTracker
tracker = record {
  seq = 10;
  gap_count = 1;
  dup_count = 0;
  last_gap_start = 4;
  last_gap_end = 6;
  last_gap_ts = 100;
}

abbrev detector : GapDetector
detector = record { gap_timeout_ns = 1000; pending = false; gap = no_gap }

abbrev pub tracking : Tracking
tracking = record {
  tracker = tracker;
  detector = detector;
  persisted = [];
  sequence_gaps = 1;
  sequence_dups = 0;
}

-- A packet of one message.
abbrev packet : ℕ → ParseResult
packet n = record {
  valid = true;
  header = record {
    session = record {
      c0 = 0;
      c1 = 0;
      c2 = 0;
      c3 = 0;
      c4 = 0;
      c5 = 0;
      c6 = 0;
      c7 = 0;
      c8 = 0;
      c9 = 0;
    };
    sequence_number = n;
    message_count = 1;
  };
  messages_begin = λ i. 0;
  messages_length = 0;
}

packet-IsData : (n : ℕ) → IsData (packet n)
packet-IsData n = record { valid = refl; messages = refl }

abbrev gap : GapInfo
gap = record { start_seq = 11; end_seq = 13; detected_at_ns = 500 }

abbrev arrivals : List (ℕ × Timestamp)
arrivals = (11, 1) ∷ (14, 2) ∷ (14, 3) ∷ (12, 4) ∷ []

seq-run_example : (run tracker arrivals).seq ≡ highest tracker.seq arrivals
seq-run_example =
    seq-run tracker arrivals (omega arith)
      (omega arith, (omega arith, (omega arith, (omega arith, tt))))

gap_forgotten_example :
    should_request_recovery (track (track tracking (packet 14) 7) (packet 15) 8).detector 9000
    ≡ false
gap_forgotten_example =
    gap_forgotten tracking (packet 14) (packet 15) 7 8 9000 (packet-IsData 14) (packet-IsData 15)
      (omega arith) (omega arith) (omega arith) refl
