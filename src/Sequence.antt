-- ===== src/Sequence.antt =====
-- src/protocol/sequence_tracker.cpp and src/recovery/gap_detector.cpp. The atomics of the tracker
-- have one writer, the parser thread, so each call is one step; the clock is an argument.
pub mod Advance
pub mod Detector
use itch_feed_handler.Common.{
  ℕ, ◌+◌, ◌-◌, ◌*◌, ◌%◌, ◌^◌, Bool, true, false, ltb, leb, ◌==◌, if◌then◌else◌, ◌&&◌, ◌||◌, not,
}
use itch_feed_handler.Types.{Timestamp}

pub record GapInfo : Type 0 where
  pub start_seq : ℕ
  pub end_seq : ℕ
  pub detected_at_ns : Timestamp

pub record SequenceTracker : Type 0 where
  pub seq : ℕ
  pub gap_count : ℕ
  pub dup_count : ℕ
  pub last_gap_start : ℕ
  pub last_gap_end : ℕ
  pub last_gap_ts : Timestamp

-- `SequenceTracker::try_advance`, with the time that `steady_ns` would return.
unfoldable pub try_advance : SequenceTracker → ℕ → Timestamp → SequenceTracker × Bool
try_advance t next_seq now =
    let expected = (t.seq + 1) % 2 ^ 64 in
    if next_seq == expected
    then (record t { seq = next_seq }, true)
    else if ltb expected next_seq
    then (
      record t {
        seq = next_seq;
        gap_count = (t.gap_count + 1) % 2 ^ 64;
        last_gap_start = expected;
        last_gap_end = next_seq - 1;
        last_gap_ts = now;
      },
      false,
    )
    else (record t { dup_count = (t.dup_count + 1) % 2 ^ 64 }, false)

-- `SequenceTracker::reset`
unfoldable pub reset : SequenceTracker → ℕ → SequenceTracker
reset t to = record {
  seq = to;
  gap_count = 0;
  dup_count = 0;
  last_gap_start = 0;
  last_gap_end = 0;
  last_gap_ts = 0;
}

-- `SequenceTracker::last_gap`
abbrev pub last_gap : SequenceTracker → GapInfo
last_gap t = record {
  start_seq = t.last_gap_start;
  end_seq = t.last_gap_end;
  detected_at_ns = t.last_gap_ts;
}

pub record GapRange : Type 0 where
  pub start_seq : ℕ
  pub end_seq : ℕ
  pub detected_at_ns : Timestamp
  pub recovery_sent : Bool

pub record GapDetector : Type 0 where
  pub gap_timeout_ns : ℕ
  pub pending : Bool
  pub gap : GapRange

abbrev pub no_gap : GapRange
no_gap = record { start_seq = 0; end_seq = 0; detected_at_ns = 0; recovery_sent = false }

-- `GapDetector::on_gap`
unfoldable pub on_gap : GapDetector → GapInfo → GapDetector
on_gap d info = record d {
  pending = true;
  gap = record {
    start_seq = info.start_seq;
    end_seq = info.end_seq;
    detected_at_ns = info.detected_at_ns;
    recovery_sent = false;
  };
}

-- `GapDetector::mark_recovered`
unfoldable pub mark_recovered : GapDetector → ℕ → GapDetector
mark_recovered d up_to_seq =
    if d.pending && leb d.gap.end_seq up_to_seq
    then record d { pending = false; gap = no_gap }
    else d

-- `GapDetector::mark_recovery_sent`
unfoldable pub mark_recovery_sent : GapDetector → GapDetector
mark_recovery_sent d = record d { gap = record (d.gap) { recovery_sent = true } }

-- `GapDetector::should_request_recovery`: the difference of the times wraps.
unfoldable pub should_request_recovery : GapDetector → Timestamp → Bool
should_request_recovery d now =
    if not d.pending || d.gap.recovery_sent
    then false
    else leb d.gap_timeout_ns ((now + 2 ^ 64 - d.gap.detected_at_ns) % 2 ^ 64)
