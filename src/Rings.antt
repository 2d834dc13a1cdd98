-- ===== src/Rings.antt =====
-- include/network/packet_ring.hpp: packets in slots that two threads share, and the queues of the
-- indices of the slots.
pub mod Slots
pub mod Recovered
pub mod Received
