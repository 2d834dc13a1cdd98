-- ===== src/Merger/Feeds.antt =====
-- src/workers/feed_merger.cpp and include/workers/feed_merger.hpp: one stream from two feeds. The log
-- lines are left out. The readings of the clock are arguments.
use itch_feed_handler.Common.{
  ℕ, ◌+◌, ◌-◌, ◌%◌, ◌^◌, Bool, true, false, ◌&&◌, not, Option, none, some, ltb, leb, ◌==◌,
  if◌then◌else◌, ◌>>=◌, advance,
}
use itch_feed_handler.Types.{Timestamp, moldudp64_heartbeat}
use itch_feed_handler.Wire.{be16, be64}
use itch_feed_handler.Spsc.{SpscQueue, try_push}
use itch_feed_handler.Rings.Slots.{
  PacketSlot, ZeroCopyRing, slot, consume, consume_recovered, merged_queue_depth,
}
use itch_feed_handler.Merger.Window.{DedupWindow, check_and_mark}

pub data FeedSource : Type 0 where
  primary secondary recovery : FeedSource

pub record MergedSlot : Type 0 where
  pub slot_idx : ℕ
  pub source : FeedSource

-- The counters of `FeedStats` that the merger writes are members here.
pub record FeedMerger : Type 0 where
  pub primary_ring : ZeroCopyRing
  pub secondary_ring : ZeroCopyRing
  pub merged_queue : SpscQueue MergedSlot
  pub merged_drops : ℕ
  pub secondary_packets : ℕ
  pub dedup_drops : ℕ
  pub feed_failover_count : ℕ
  pub failover_timeout_ns : ℕ
  pub dedup : DedupWindow
  pub primary_last_ts : Timestamp
  pub last_failover_log_ts : Timestamp
  pub failed_over : Bool
  pub secondary_enabled : Bool
  pub slot_counter : ℕ

abbrev pub next64 : ℕ → ℕ
next64 n = (n + 1) % 2 ^ 64

-- `FeedMerger::peek_sequence` and `FeedMerger::peek_msg_count`
unfoldable pub peek_sequence : PacketSlot → ℕ
peek_sequence s = if ltb s.length 20 then 0 else be64 (advance s.bytes 10)

unfoldable pub peek_msg_count : PacketSlot → ℕ
peek_msg_count s = be16 (advance s.bytes 18)

-- `FeedMerger::forward`
unfoldable pub forward : FeedMerger → MergedSlot → FeedMerger
forward m ms =
    let (q, pushed) = try_push merged_queue_depth m.merged_queue ms in
    record m {
      merged_queue = q;
      merged_drops = if pushed then m.merged_drops else next64 m.merged_drops;
    }

-- The start of `handle_live_slot`: the primary feed is alive, or a packet of the other is counted.
unfoldable pub note_source : FeedMerger → PacketSlot → FeedSource → Timestamp → FeedMerger
note_source m s FeedSource.primary now = record m {
  primary_last_ts = if s.recv_ts == 0 then now else s.recv_ts;
  failed_over = false;
}
note_source m s FeedSource.secondary now = record m {
  secondary_packets = next64 m.secondary_packets;
}
note_source m s FeedSource.recovery now = record m {
  secondary_packets = next64 m.secondary_packets;
}

-- The slot that `handle_live_slot` looks at.
unfoldable pub live_slot : FeedMerger → ℕ → FeedSource → PacketSlot
live_slot m idx FeedSource.primary = slot m.primary_ring idx
live_slot m idx FeedSource.secondary = slot m.secondary_ring idx
live_slot m idx FeedSource.recovery = slot m.secondary_ring idx

-- The end of `handle_live_slot`.
unfoldable pub dedup_forward : FeedMerger → MergedSlot → ℕ → Option FeedMerger
dedup_forward m ms seq = check_and_mark m.dedup seq >>= λ r. some (
    if r.1
    then forward (record m { dedup = r.0 }) ms
    else record m { dedup = r.0; dedup_drops = next64 m.dedup_drops })

-- `FeedMerger::handle_live_slot`. `none` is a loop of the window that does not end.
unfoldable pub handle_live_slot : FeedMerger → ℕ → FeedSource → Timestamp → Option FeedMerger
handle_live_slot m idx source now =
    let s = live_slot m idx source in
    let noted = note_source m s source now in
    let ms : MergedSlot = record { slot_idx = idx; source = source } in
    if peek_sequence s == 0
    then some (forward noted ms)
    else if peek_msg_count s == moldudp64_heartbeat
    then some (forward noted ms)
    else dedup_forward noted ms (peek_sequence s)

-- `FeedMerger::check_failover`
unfoldable pub check_failover : FeedMerger → Timestamp → FeedMerger
check_failover m now =
    if not m.failed_over
    then (if ltb 0 m.primary_last_ts
          && ltb m.failover_timeout_ns ((now + 2 ^ 64 - m.primary_last_ts) % 2 ^ 64)
        then record m {
          failed_over = true;
          last_failover_log_ts = now;
          feed_failover_count = next64 m.feed_failover_count;
        }
        else m)
    else if leb 1000000000 ((now + 2 ^ 64 - m.last_failover_log_ts) % 2 ^ 64)
    then record m { last_failover_log_ts = now }
    else m

-- `FAILOVER_CHECK_INTERVAL`
abbrev pub failover_check_interval : ℕ
failover_check_interval = 4096

-- The start of `FeedMerger::run`.
unfoldable pub start_run : FeedMerger → Timestamp → FeedMerger
start_run m now = record m {
  secondary_enabled = m.secondary_ring.is_allocated;
  primary_last_ts = now;
}

-- A feed is asked for a packet, which is handled if there is one.
unfoldable pub poll_primary : FeedMerger → Timestamp → Option FeedMerger
poll_primary m now =
    let (ring, idx) = consume m.primary_ring in
    elim idx [
      | none ↦ some (record m { primary_ring = ring })
      | some i ↦ handle_live_slot (record m { primary_ring = ring }) i FeedSource.primary now
    ]

unfoldable pub poll_secondary : FeedMerger → Timestamp → Option FeedMerger
poll_secondary m now =
    let (ring, idx) = consume m.secondary_ring in
    if not m.secondary_enabled then some m else elim idx [
      | none ↦ some (record m { secondary_ring = ring })
      | some i ↦ handle_live_slot (record m { secondary_ring = ring }) i FeedSource.secondary now
    ]

-- The health check at the end of a round.
unfoldable pub count_round : FeedMerger → Timestamp → FeedMerger
count_round m now =
    let n = (m.slot_counter + 1) % 2 ^ 32 in
    if leb failover_check_interval n
    then (if m.secondary_enabled
        then check_failover (record m { slot_counter = 0 }) now
        else record m { slot_counter = 0 })
    else record m { slot_counter = n }

-- One round of the loop of `FeedMerger::run`, with the three readings of the clock.
unfoldable pub round : FeedMerger → Timestamp → Timestamp → Timestamp → Option FeedMerger
round m t1 t2 t3 =
    let (ring, idx) = consume_recovered m.primary_ring in
    elim idx [
      | some i ↦ some (
          forward (record m { primary_ring = ring })
            (record { slot_idx = i; source = FeedSource.recovery }))
      | none ↦ poll_primary (record m { primary_ring = ring }) t1 >>= λ m1.
          poll_secondary m1 t2 >>= λ m2. some (count_round m2 t3)
    ]
