-- ===== src/Merger/Failover.antt =====
-- The health of the primary feed.
use itch_feed_handler.Common.{◌-◌, ◌^◌, ◌≤◌, ◌<◌, ◌≡◌, arith, true, false, ltb, ◌==◌, if◌then◌else◌}
use itch_feed_handler.Types.{Timestamp}
use itch_feed_handler.Rings.Slots.{PacketSlot}
use itch_feed_handler.Merger.Feeds.{FeedMerger, FeedSource, next64, note_source, check_failover}

-- The time that a packet of the primary feed counts for.
abbrev pub seen_at : PacketSlot → Timestamp → Timestamp
seen_at s now = if s.recv_ts == 0 then now else s.recv_ts

-- A packet of the primary feed ends a failover. From then on a check finds a failover exactly when
-- the feed has been silent for longer than the timeout, and counts it. Packets of the secondary
-- feed between the two change nothing in this.
pub check_failover-note_source :
    (m : FeedMerger) (s s' : PacketSlot) (t t' now : Timestamp)
    → 0 < seen_at s t
    → seen_at s t ≤ now
    → now < 2 ^ 64
    → let noted = note_source m s FeedSource.primary t in
      let m' = check_failover (note_source noted s' FeedSource.secondary t') now in
      let silent = ltb m.failover_timeout_ns (now - seen_at s t) in
      (noted.failed_over ≡ false)
      × (m'.failed_over ≡ silent)
      × (m'.feed_failover_count
          ≡ (if silent then next64 m.feed_failover_count else m.feed_failover_count))
unfolding note_source check_failover
check_failover-note_source m s s' t t' now some_time past small = ground arith

-- A failover lasts until the primary feed is heard again, and is counted once.
pub check_failover-lasts :
    (m : FeedMerger) (s : PacketSlot) (t now later : Timestamp)
    → (check_failover m now).failed_over ≡ true
    → let m' = check_failover m now in
      let m'' = check_failover (note_source m' s FeedSource.secondary t) later in
      (m''.failed_over ≡ true) × (m''.feed_failover_count ≡ m'.feed_failover_count)
unfolding note_source check_failover
check_failover-lasts m s t now later h = ground arith
