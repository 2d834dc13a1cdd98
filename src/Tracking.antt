-- ===== src/Tracking.antt =====
-- src/workers/parser_thread.cpp, `ParserThread::process_slot`, steps 1 and 2: what the parser thread
-- does with the sequence number of a packet before it parses the messages.
pub mod Gaps
pub mod Process
pub mod Packets
use itch_feed_handler.Common.{
  ℕ, ◌+◌, ◌%◌, ◌^◌, Bool, true, false, ltb, if◌then◌else◌, List, [], ◌∷◌, not, ◌||◌,
}
use itch_feed_handler.Types.{Timestamp}
use itch_feed_handler.Mold.{Session, ParseResult, is_heartbeat}
use itch_feed_handler.Sequence.{
  SequenceTracker, try_advance, last_gap, GapDetector, on_gap, mark_recovered,
}

-- `persisted` holds what was handed to `PersistentSequence::enqueue`, the latest first.
pub record Tracking : Type 0 where
  pub tracker : SequenceTracker
  pub detector : GapDetector
  pub persisted : List (ℕ × Session)
  pub sequence_gaps : ℕ
  pub sequence_dups : ℕ

abbrev increment : ℕ → ℕ
increment n = (n + 1) % 2 ^ 64

unfoldable pub after_advance : Tracking → SequenceTracker × Bool → ℕ → Session → Tracking
after_advance s (t, true) seq session = record s {
  tracker = t;
  detector = mark_recovered s.detector seq;
  persisted = (seq, session) ∷ s.persisted;
}
after_advance s (t, false) seq session =
    if ltb 0 t.gap_count
    then record s {
      tracker = t;
      detector = on_gap s.detector (last_gap t);
      sequence_gaps = increment s.sequence_gaps;
    }
    else record s { tracker = t; sequence_dups = increment s.sequence_dups }

-- `now` is the time that `try_advance` reads if it finds a gap.
unfoldable pub track : Tracking → ParseResult → Timestamp → Tracking
unfolding after_advance
track s mold now =
    if not mold.valid || is_heartbeat mold.header
    then s
    else after_advance s (try_advance s.tracker mold.header.sequence_number now)
        mold.header.sequence_number mold.header.session
