-- ===== src/Examples/Rings.antt =====
-- The theorems on the rings of packets at a ring with no packet and at a full one.
use itch_feed_handler.Common.{◌^◌, arith, refl, true}
use Prim.Native.Nat.{◌∣◌}
use itch_feed_handler.Spsc.History.{fresh, fresh-Holds}
use itch_feed_handler.Rings.Slots.{
  ZeroCopyRing, PacketSlot, inject_recovered_packet, recovery_ring_depth, packet_ring_depth,
}
use itch_feed_handler.Rings.Recovered.{IsPending, Accepts, inject-room}

abbrev packet : PacketSlot
packet = record { bytes = λ i. 3; length = 60; recv_ts = 1000 }

abbrev ring : ZeroCopyRing
ring = record {
  is_allocated = true;
  slots = λ i. packet;
  queue = fresh packet_ring_depth (λ i. 0);
  recovery_slots = λ i. packet;
  recovery_queue = fresh recovery_ring_depth (λ i. 0);
  recovery_write = 0;
}

ring-IsPending : IsPending ring 0 0
ring-IsPending = record {
  holds =
      fresh-Holds recovery_ring_depth (λ i. 0) (omega arith) (omega arith) (∣ (2 ^ 54, refl) ∣₁);
  fits = omega arith;
  next = refl;
}

inject-room_example :
    Accepts ring 0 0
      (λ i. 9)
      30
      77
      2
      4
      ring-IsPending
      (inject_recovered_packet ring (λ i. 9) 30 77 2 4)
inject-room_example = inject-room ring 0 0 (λ i. 9) 30 77 2 4 ring-IsPending (omega arith)
