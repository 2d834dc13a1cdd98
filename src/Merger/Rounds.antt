-- ===== src/Merger/Rounds.antt =====
-- What becomes of a packet that the merger takes from a ring, and what a round does first.
use itch_feed_handler.Common.{
  ℕ, ◌≡◌, refl, Bool, true, false, ◌||◌, Option, some, List, ◌∷◌, ◌==◌, if◌then◌else◌,
}
use itch_feed_handler.Types.{Timestamp, moldudp64_heartbeat}
use itch_feed_handler.Spsc.{try_pop}
use itch_feed_handler.Spsc.Queue.{Holds, push_list}
use itch_feed_handler.Spsc.Client.{try_push-Holds, try_pop-Holds}
use itch_feed_handler.Rings.Slots.{
  PacketSlot, consume_recovered, merged_queue_depth, recovery_ring_depth,
}
use itch_feed_handler.Merger.Window.{DedupWindow}
use itch_feed_handler.Merger.Seen.{Covers, Recent, add, is_fresh}
use itch_feed_handler.Merger.Feeds.{
  FeedMerger, FeedSource, MergedSlot, next64, peek_sequence, peek_msg_count, forward, dedup_forward,
  round,
}

-- The packet is in the queue of the parser, or counted as lost because the queue is full.
abbrev pub Forwards : FeedMerger → List MergedSlot → MergedSlot → FeedMerger → Type 0
Forwards m xs ms m' =
    let (ys, pushed) = push_list merged_queue_depth xs ms in
    Holds merged_queue_depth m'.merged_queue ys
    × (m'.merged_drops ≡ (if pushed then m.merged_drops else next64 m.merged_drops))
    × (m'.dedup_drops ≡ m.dedup_drops)

-- The packet is counted as a duplicate.
abbrev pub Drops : FeedMerger → List MergedSlot → FeedMerger → Type 0
Drops m xs m' =
    Holds merged_queue_depth m'.merged_queue xs
    × (m'.merged_drops ≡ m.merged_drops)
    × (m'.dedup_drops ≡ next64 m.dedup_drops)

-- The window agrees with a set, and has not run ahead of it.
abbrev pub Tracks : DedupWindow → (ℕ → Bool) → Type 0
Tracks w seen = Covers w seen × Recent w seen

-- A packet with no sequence number, and a heartbeat, are not compared.
abbrev pub is_exempt : PacketSlot → Bool
is_exempt s = (peek_sequence s == 0) || (peek_msg_count s == moldudp64_heartbeat)

forward-Forwards :
    (m : FeedMerger) (xs : List MergedSlot) (ms : MergedSlot)
    → Holds merged_queue_depth m.merged_queue xs
    → Forwards m xs ms (forward m ms)
unfolding forward
forward-Forwards m xs ms h =
    let (h', done) = try_push-Holds merged_queue_depth m.merged_queue xs ms h in
    (h', rw done refl, refl)

-- What `handle_live_slot` does once it has taken note of the source.
abbrev after_note : FeedMerger → PacketSlot → MergedSlot → Option FeedMerger
after_note n s ms =
    if peek_sequence s == 0
    then some (forward n ms)
    else if peek_msg_count s == moldudp64_heartbeat
    then some (forward n ms)
    else dedup_forward n ms (peek_sequence s)

-- How the merger ends up with the packet.
abbrev pub Outcome :
    FeedMerger → List MergedSlot → PacketSlot → MergedSlot → (ℕ → Bool) → FeedMerger → Type 0
Outcome m xs s ms seen m' =
    let fresh = is_fresh m.dedup seen (peek_sequence s) in
    (is_exempt s ≡ true → Forwards m xs ms m' × Tracks m'.dedup seen)
    × (is_exempt s ≡ false
        → fresh ≡ true
        → Forwards m xs ms m' × Tracks m'.dedup (add (peek_sequence s) seen))
    × (is_exempt s ≡ false → fresh ≡ false → Drops m xs m' × Tracks m'.dedup seen)

-- A recovered packet goes first: the round hands it on, and asks neither feed.
pub round-recovery :
    (m : FeedMerger) (xs : List MergedSlot) (i : ℕ) (rest : List ℕ) (t1 t2 t3 : Timestamp)
    → Holds merged_queue_depth m.merged_queue xs
    → Holds recovery_ring_depth m.primary_ring.recovery_queue (i ∷ rest)
    → (m' : FeedMerger) × (round m t1 t2 t3 ≡ some m')
      × Forwards m xs (record { slot_idx = i; source = FeedSource.recovery }) m'
      × Holds recovery_ring_depth m'.primary_ring.recovery_queue rest
      × (m'.primary_ring.queue ≡ m.primary_ring.queue)
      × (m'.secondary_ring ≡ m.secondary_ring)
      × (m'.dedup ≡ m.dedup)
unfolding round consume_recovered forward
round-recovery m xs i rest t1 t2 t3 h waiting =
    let (left, popped) =
      try_pop-Holds recovery_ring_depth m.primary_ring.recovery_queue (i ∷ rest) waiting in
    let ring = record m.primary_ring {
      recovery_queue = (try_pop recovery_ring_depth m.primary_ring.recovery_queue).0;
    } in
    let taken = record m { primary_ring = ring } in
    let ms : MergedSlot = record { slot_idx = i; source = FeedSource.recovery } in
    (
      forward taken ms,
      rw (round, popped) refl,
      forward-Forwards taken xs ms h,
      left,
      refl,
      refl,
      refl,
    )
