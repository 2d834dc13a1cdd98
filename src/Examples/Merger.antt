-- ===== src/Examples/Merger.antt =====
-- The theorems on the merging of the feeds at a new merger.
use itch_feed_handler.Common.{ℕ, ◌≡◌, arith, Bool, true, some, List, [], ◌∷◌, if◌then◌else◌, ltb}
use itch_feed_handler.Spsc.{SpscQueue}
use itch_feed_handler.Spsc.History.{fresh}
use itch_feed_handler.Rings.Slots.{PacketSlot, ZeroCopyRing, merged_queue_depth}
use itch_feed_handler.Merger.Window.{DedupWindow, reset}
use itch_feed_handler.Merger.Once.{check_all, numbers, Explained, none_seen, check_all-reset}
use itch_feed_handler.Merger.Feeds.{FeedSource, MergedSlot, FeedMerger}

abbrev used : DedupWindow
used = record { base = 64; bits = λ i. 5 }

abbrev arrivals : List ℕ
arrivals = 3 ∷ 3 ∷ 200 ∷ 4 ∷ 199 ∷ []

check_all-reset_example :
    (results : List (ℕ × Bool)) × (check_all (reset used) arrivals ≡ some results)
    × (numbers results ≡ arrivals)
    × Explained none_seen results
check_all-reset_example =
    check_all-reset used arrivals
      (omega arith, (omega arith, (omega arith, (omega arith, (omega arith, tt)))))

-- A packet with sequence number 7 and two messages, received at 1000.
abbrev packet : PacketSlot
packet = record {
  bytes = λ i. if ltb i 17 then 0 else if ltb 18 i then 2 else if ltb i 18 then 7 else 0;
  length = 60;
  recv_ts = 1000;
}

abbrev indices : SpscQueue ℕ
indices = fresh 1024 (λ i. 0)

abbrev ring : ZeroCopyRing
ring = record {
  is_allocated = true;
  slots = λ i. packet;
  queue = indices;
  recovery_slots = λ i. packet;
  recovery_queue = indices;
  recovery_write = 0;
}

abbrev nothing : MergedSlot
nothing = record { slot_idx = 0; source = FeedSource.primary }

abbrev merger : FeedMerger
merger = record {
  primary_ring = ring;
  secondary_ring = ring;
  merged_queue = fresh merged_queue_depth (λ i. nothing);
  merged_drops = 0;
  secondary_packets = 0;
  dedup_drops = 0;
  feed_failover_count = 0;
  failover_timeout_ns = 500;
  dedup = reset used;
  primary_last_ts = 0;
  last_failover_log_ts = 0;
  failed_over = true;
  secondary_enabled = true;
  slot_counter = 0;
}
