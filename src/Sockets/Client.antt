-- ===== src/Sockets/Client.antt =====
-- src/recovery/retransmit_client.cpp, `RetransmitClient`: `connect_to`, `connect`, `recv` and `disconnect`.
use itch_feed_handler.Common.{
  ℕ, ◌%◌, ◌^◌, Bool, true, false, ◌&&◌, not, Option, none, some, ◌==◌, if◌then◌else◌,
}
use itch_feed_handler.Types.{Timestamp}
use itch_feed_handler.Rings.Slots.{copied}
use itch_feed_handler.Recovery.Request.{Connected}
use itch_feed_handler.Sockets.{Socket, shut, new_socket, RawPacket, Arrived, Count}

-- The results of the calls of `connect_to`: the descriptor, whether the address can be read, whether the
-- connection is made, and what the login returns.
pub record Results : Type 0 where
  pub socket : Option ℕ
  pub address : Bool
  pub connected : Bool
  pub logged_in : Bool

-- `RetransmitClient::connect_to` behind the test of the descriptor.
unfoldable pub set_up : Bool → Socket → Results → Socket × Connected
set_up require_login s r =
    if not r.address
    then (shut s, Connected.unreachable)
    else if not r.connected
    then (shut s, Connected.unreachable)
    else if require_login && not r.logged_in
    then (shut s, Connected.exited)
    else (s, Connected.ready)

-- `RetransmitClient::connect_to`
unfoldable pub connect_to : Bool → Socket → Results → Socket × Connected
connect_to require_login s r = elim r.socket [
  | none ↦ (new_socket s none, Connected.unreachable)
  | some f ↦ set_up require_login (new_socket s (some f)) r
]

-- `RetransmitClient::connect`: the second address where the first cannot be reached and there is one.
abbrev pub or_second : Bool → Bool → Results → Socket → Connected → Socket × Connected
or_second require_login has_secondary second s Connected.ready = (s, Connected.ready)
or_second require_login has_secondary second s Connected.exited = (s, Connected.exited)
or_second require_login has_secondary second s Connected.unreachable =
    if has_secondary then connect_to require_login s second else (s, Connected.unreachable)

unfoldable pub connect_either : Bool → Bool → Socket → Results → Results → Socket × Connected
connect_either require_login has_secondary s first second =
    let (s1, c1) = connect_to require_login s first in
    or_second require_login has_secondary second s1 c1

-- `RetransmitClient::recv` behind the test of the connection.
unfoldable pub take_bytes : Socket → RawPacket → Arrived → Timestamp → Socket × RawPacket × Count
take_bytes s pkt (Arrived.error true) now = (s, pkt, Count.count 0)
take_bytes s pkt (Arrived.error false) now = (s, pkt, Count.minus_one)
take_bytes s pkt (Arrived.bytes data_in n) now =
    if n == 0 then (shut s, pkt, Count.minus_one) else (
      s,
      record { bytes = copied pkt.bytes data_in n; length = n % 2 ^ 16; recv_timestamp_ns = now },
      Count.count n,
    )

-- `RetransmitClient::recv`
unfoldable pub recv : Socket → RawPacket → Arrived → Timestamp → Socket × RawPacket × Count
recv s pkt a now = elim s.fd [ none ↦ (s, pkt, Count.minus_one) | some f ↦ take_bytes s pkt a now ]
