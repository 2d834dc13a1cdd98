-- ===== src/Rings/Slots.antt =====
-- include/network/packet_ring.hpp, `ZeroCopyRing`. An index is a `uint16_t`; both depths are powers of
-- two, so a mask is a remainder. The allocation of the buffer is left out: a ring has one or not.
use itch_feed_handler.Common.{
  ℕ, ◌+◌, ◌%◌, ◌^◌, Bool, true, false, Option, ltb, leb, if◌then◌else◌, update, Memory,
}
use itch_feed_handler.Types.{Timestamp}
use itch_feed_handler.Spsc.{SpscQueue, try_push, try_pop, size_approx}

-- `PACKET_RING_DEPTH`, `RECOVERY_RING_DEPTH` and `MERGED_QUEUE_DEPTH`
abbrev pub packet_ring_depth : ℕ
packet_ring_depth = 65536

abbrev pub recovery_ring_depth : ℕ
recovery_ring_depth = 1024

abbrev pub merged_queue_depth : ℕ
merged_queue_depth = 65536

-- `bytes` is the member `data`.
pub record PacketSlot : Type 0 where
  pub bytes : Memory
  pub length : ℕ
  pub recv_ts : Timestamp

-- `is_allocated` is `buffer != nullptr`.
pub record ZeroCopyRing : Type 0 where
  pub is_allocated : Bool
  pub slots : ℕ → PacketSlot
  pub queue : SpscQueue ℕ
  pub recovery_slots : ℕ → PacketSlot
  pub recovery_queue : SpscQueue ℕ
  pub recovery_write : ℕ

-- `ZeroCopyRing::claim`: the slot of the buffer that an index stands for. `ZeroCopyRing::slot` is a
-- read of it.
unfoldable pub claim : ℕ → ℕ
claim idx = idx % packet_ring_depth

unfoldable pub slot : ZeroCopyRing → ℕ → PacketSlot
slot r idx = r.slots (idx % packet_ring_depth)

-- `ZeroCopyRing::publish`
unfoldable pub publish : ZeroCopyRing → ℕ → ZeroCopyRing × Bool
publish r idx =
    let (q, done) = try_push packet_ring_depth r.queue idx in (record r { queue = q }, done)

-- `ZeroCopyRing::consume`
unfoldable pub consume : ZeroCopyRing → ZeroCopyRing × Option ℕ
consume r = let (q, idx) = try_pop packet_ring_depth r.queue in (record r { queue = q }, idx)

-- `ZeroCopyRing::consume_recovered`
unfoldable pub consume_recovered : ZeroCopyRing → ZeroCopyRing × Option ℕ
consume_recovered r =
    let (q, idx) = try_pop recovery_ring_depth r.recovery_queue in
    (record r { recovery_queue = q }, idx)

-- `ZeroCopyRing::recovery_slot`
unfoldable pub recovery_slot : ZeroCopyRing → ℕ → PacketSlot
recovery_slot r idx = r.recovery_slots (idx % recovery_ring_depth)

-- `std::memcpy(dst, src, len)`
abbrev pub copied : Memory → Memory → ℕ → Memory
copied dst src len i = if ltb i len then src i else dst i

-- The slot after the writes of `inject_recovered_packet`.
abbrev pub filled : PacketSlot → Memory → ℕ → Timestamp → PacketSlot
filled s packet len recv_ts = record s {
  bytes = copied s.bytes packet len;
  length = len;
  recv_ts = recv_ts;
}

-- The counters that `inject_recovered_packet` is given.
pub record Injected : Type 0 where
  pub ring : ZeroCopyRing
  pub drops : ℕ
  pub recovered : ℕ
  pub accepted : Bool

-- `ZeroCopyRing::inject_recovered_packet`
unfoldable pub inject_recovered_packet : ZeroCopyRing → Memory → ℕ → Timestamp → ℕ → ℕ → Injected
inject_recovered_packet r packet len recv_ts drops recovered =
    let slot_idx = r.recovery_write % recovery_ring_depth in
    let written =
      update r.recovery_slots slot_idx (filled (r.recovery_slots slot_idx) packet len recv_ts) in
    let (q, done) = try_push recovery_ring_depth r.recovery_queue slot_idx in
    if leb recovery_ring_depth (size_approx r.recovery_queue)
    then record { ring = r; drops = (drops + 1) % 2 ^ 64; recovered = recovered; accepted = false }
    else if done
    then record {
      ring = record r {
        recovery_slots = written;
        recovery_queue = q;
        recovery_write = (r.recovery_write + 1) % 2 ^ 16;
      };
      drops = drops;
      recovered = (recovered + 1) % 2 ^ 64;
      accepted = true;
    }
    else record {
      ring = record r { recovery_slots = written; recovery_queue = q };
      drops = (drops + 1) % 2 ^ 64;
      recovered = recovered;
      accepted = false;
    }
