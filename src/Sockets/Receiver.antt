-- ===== src/Sockets/Receiver.antt =====
-- src/network/socket_receiver.cpp, `SocketReceiver`, where the system has hardware timestamps.
use itch_feed_handler.Common.{
  ℕ, ◌+◌, ◌*◌, ◌%◌, ◌^◌, Bool, true, false, ◌||◌, not, Option, none, some, List, [], ◌∷◌, ◌==◌,
  if◌then◌else◌,
}
use itch_feed_handler.Types.{Timestamp}
use itch_feed_handler.Rings.Slots.{copied}
use itch_feed_handler.Sockets.{Socket, shut, new_socket, RawPacket, Arrived, Count}

-- `SocketReceiver::open`, with the descriptor that the system gives and whether it can be bound.
unfoldable pub open_at : Socket → Option ℕ → Bool → Socket × Bool
open_at s none bound = (new_socket s none, false)
open_at s (some f) bound =
    if not bound then (shut (new_socket s (some f)), false) else (new_socket s (some f), true)

-- `SocketReceiver::join_multicast`, with whether the group could be joined.
unfoldable pub join_multicast : Socket → Bool → Bool
join_multicast s joined = elim s.fd [ none ↦ false | some f ↦ joined ]

-- A control message: whether it holds timestamps, and the third of them.
pub record ControlMessage : Type 0 where
  pub is_timestamping : Bool
  pub tv_sec : ℕ
  pub tv_nsec : ℕ

-- The walk over the control messages, for the timestamp of the packet as it is.
unfoldable pub hardware_ts : Timestamp → List ControlMessage → Timestamp
hardware_ts ts [] = ts
hardware_ts ts (m ∷ rest) =
    let next = hardware_ts ts rest in
    if m.is_timestamping
    then (if not (m.tv_sec == 0) || not (m.tv_nsec == 0)
        then (m.tv_sec * 1000000000 + m.tv_nsec) % 2 ^ 64
        else ts)
    else next

-- `SocketReceiver::recv`
unfoldable pub recv_packet :
    RawPacket → Arrived → Timestamp → List ControlMessage → RawPacket × Count
recv_packet pkt (Arrived.error true) now msgs = (pkt, Count.count 0)
recv_packet pkt (Arrived.error false) now msgs = (pkt, Count.minus_one)
recv_packet pkt (Arrived.bytes data_in n) now msgs = (
  record {
    bytes = copied pkt.bytes data_in n;
    length = n % 2 ^ 16;
    recv_timestamp_ns = hardware_ts now msgs;
  },
  Count.count n,
)
