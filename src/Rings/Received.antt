-- ===== src/Rings/Received.antt =====
-- src/workers/receiver_thread.cpp, `ReceiverThread::run`: packets from the socket into the ring.
use itch_feed_handler.Common.{
  ℕ, suc, ◌+◌, ◌%◌, ◌^◌, ◌/◌, ◌*◌, ◌≤◌, ◌<◌, ◌≡◌, arith, refl, sym, ap, ◌∙◌, subst, List, [], ◌∷◌,
  ◌++◌, if◌then◌else◌, update, update_self, Memory,
}
use itch_feed_handler.Types.{Timestamp}
use itch_feed_handler.Spsc.{try_push}
use itch_feed_handler.Spsc.Invariant.{window, length-window}
use itch_feed_handler.Spsc.Fifo.{window-update}
use itch_feed_handler.Spsc.Queue.{Holds}
use itch_feed_handler.Spsc.Client.{try_push-room, try_push-full}
use itch_feed_handler.Rings.Slots.{
  ZeroCopyRing, PacketSlot, claim, publish, copied, packet_ring_depth,
}
use itch_feed_handler.Rings.Recovered.{window-append}

-- The ring, and the counters of the thread and of `FeedStats`.
pub record ReceiverThread : Type 0 where
  pub ring : ZeroCopyRing
  pub write_slot : ℕ
  pub pkts_received : ℕ
  pub pkts_dropped : ℕ
  pub packets_received : ℕ
  pub packets_dropped : ℕ

-- What `SocketReceiver::recv` does is up to the socket: it returns no packet, or writes n bytes and
-- the members `length` and `recv_timestamp_ns` of a `RawPacket`.
pub data Arrival : Type 0 where
  nothing : Arrival
  packet : Memory → ℕ → Timestamp → Arrival

-- Where the compiler puts the timestamps: a `RawPacket` is packed, a `PacketSlot` has the members
-- `pad0` and `pad1` before the timestamp, which is aligned to 8 bytes.
abbrev pub raw_timestamp_offset : ℕ
raw_timestamp_offset = 1500 + 2

abbrev pub slot_timestamp_offset : ℕ
slot_timestamp_offset = (1500 + 2 + 2 + 4 + 7) / 8 * 8

-- The slot after `recv`, which takes it for a `RawPacket`: the 8 bytes of the timestamp lie in
-- front of the member `recv_ts`.
unfoldable pub received : PacketSlot → Memory → ℕ → PacketSlot
received s bytes n = record s { bytes = copied s.bytes bytes n; length = n % 2 ^ 16 }

-- `++n` on 64 bits
abbrev next64 : ℕ → ℕ
next64 n = (n + 1) % 2 ^ 64

-- One round of the loop.
unfoldable pub receive : ReceiverThread → Arrival → ReceiverThread
receive t nothing = t
receive t (packet bytes n ts) =
    let filled = record t.ring {
      slots =
          update t.ring.slots (claim t.write_slot)
            (received (t.ring.slots (claim t.write_slot)) bytes n);
    } in
    let (ring, published) = publish filled t.write_slot in
    if published
    then record t {
      ring = ring;
      pkts_received = next64 t.pkts_received;
      packets_received = next64 t.packets_received;
      write_slot = (t.write_slot + 1) % 2 ^ 16;
    }
    else record t {
      ring = ring;
      pkts_dropped = next64 t.pkts_dropped;
      packets_dropped = next64 t.packets_dropped;
    }

-- The queue holds the indices of n packets, the last one just before the next slot.
pub record IsFilled (t : ReceiverThread) (first n : ℕ) : Type 0 where
  pub holds : Holds packet_ring_depth t.ring.queue (window packet_ring_depth (λ i. i) first n)
  pub fits : n ≤ packet_ring_depth
  pub next : (first + n) % packet_ring_depth ≡ t.write_slot
  pub small : t.write_slot < packet_ring_depth

-- The packets that wait, oldest first.
abbrev pub unread : ReceiverThread → ℕ → ℕ → List PacketSlot
unread t first n = window packet_ring_depth t.ring.slots first n

raw_timestamp_in_padding : raw_timestamp_offset + 8 ≤ slot_timestamp_offset
raw_timestamp_in_padding = omega arith

module _ (t : ReceiverThread) (first n : ℕ) (bytes : Memory) (len ts : ℕ)
    (v : IsFilled t first n) where
  -- The slot that the packet is written to, before and after.
  abbrev pub old_slot : PacketSlot
  old_slot = t.ring.slots t.write_slot

  new_slot : (received old_slot bytes len).recv_ts ≡ old_slot.recv_ts
  unfolding received
  new_slot = refl

  claimed : claim t.write_slot ≡ t.write_slot
  unfolding claim
  claimed = omega (arith, v.small)

  -- The thread after a packet was published.
  abbrev stored : ReceiverThread
  stored = record t {
    ring = record t.ring {
      slots = update t.ring.slots t.write_slot (received old_slot bytes len);
      queue = (try_push packet_ring_depth t.ring.queue t.write_slot).0;
    };
    pkts_received = next64 t.pkts_received;
    packets_received = next64 t.packets_received;
    write_slot = (t.write_slot + 1) % 2 ^ 16;
  }

  -- With room in the ring.
  abbrev pub Keeps : ReceiverThread → Type 0
  Keeps t' =
      IsFilled t' first (suc n)
      × (unread t' first (suc n) ≡ unread t first n ++ received old_slot bytes len ∷ [])
      × (t'.packets_dropped ≡ t.packets_dropped)

  -- With a ring that is full.
  abbrev pub Overwrites : ReceiverThread → Type 0
  Overwrites t' =
      IsFilled t' first n
      × (t'.ring.slots (first % packet_ring_depth) ≡ received old_slot bytes len)
      × (t'.packets_dropped ≡ next64 t.packets_dropped)

  room_run :
      n < packet_ring_depth
      → Holds packet_ring_depth stored.ring.queue (window packet_ring_depth (λ i. i) first (suc n))
        × (receive t (packet bytes len ts) ≡ stored)
  unfolding receive publish
  room_run room =
      let (h, done) =
        try_push-room packet_ring_depth t.ring.queue (window packet_ring_depth (λ i. i) first n)
          t.write_slot v.holds (omega (arith, length-window packet_ring_depth (λ i. i) first n)) in
      (
        subst (λ s. Holds packet_ring_depth stored.ring.queue s)
            (ap (λ k. window packet_ring_depth (λ i. i) first n ++ k ∷ []) (sym v.next)
              ∙ sym (window-append packet_ring_depth (λ i. i) first n))
            h,
        rw (claimed, done) refl,
      )

  -- A packet that finds room waits behind the others, which are unchanged.
  pub receive-room : n < packet_ring_depth → Keeps (receive t (packet bytes len ts))
  receive-room room =
      let (h, run) = room_run room in
      subst (λ t'. Keeps t') (sym run)
        (
          record {
            holds = h;
            fits = omega arith;
            next = omega (arith, v.next);
            small = omega arith;
          },
          window-update packet_ring_depth t.ring.slots (received old_slot bytes len) first n
              (first + n) t.write_slot refl room (sym v.next),
          refl,
        )

  -- The thread after the ring refused a packet.
  abbrev refused : ReceiverThread
  refused = record t {
    ring = record t.ring {
      slots = update t.ring.slots t.write_slot (received old_slot bytes len);
      queue = (try_push packet_ring_depth t.ring.queue t.write_slot).0;
    };
    pkts_dropped = next64 t.pkts_dropped;
    packets_dropped = next64 t.packets_dropped;
  }

  full_run :
      n ≡ packet_ring_depth
      → Holds packet_ring_depth refused.ring.queue (window packet_ring_depth (λ i. i) first n)
        × (receive t (packet bytes len ts) ≡ refused)
  unfolding receive publish
  full_run full =
      let (h, done) =
        try_push-full packet_ring_depth t.ring.queue (window packet_ring_depth (λ i. i) first n)
          t.write_slot v.holds
          (λ room. absurd (omega (arith, length-window packet_ring_depth (λ i. i) first n))) in
      (h, rw (claimed, done) refl)

  -- A packet that finds the ring full is counted as dropped, but it has been written over the oldest
  -- packet that waits.
  pub receive-full : n ≡ packet_ring_depth → Overwrites (receive t (packet bytes len ts))
  receive-full full =
      let (h, run) = full_run full in
      let oldest : first % packet_ring_depth ≡ t.write_slot = omega (arith, v.next) in
      subst (λ t'. Overwrites t') (sym run)
        (
          record { holds = h; fits = v.fits; next = v.next; small = v.small },
          ap (update t.ring.slots t.write_slot (received old_slot bytes len)) oldest
              ∙ update_self t.ring.slots t.write_slot (received old_slot bytes len),
          refl,
        )
