-- ===== src/Sockets.antt =====
-- src/recovery/retransmit_client.cpp and src/network/socket_receiver.cpp: the sockets. What the system
-- calls return is an argument; setting the options of a socket changes nothing here.
pub mod Client
pub mod Receiver
pub mod Held
use itch_feed_handler.Common.{
  ℕ, ◌%◌, ◌^◌, ◌*◌, ◌+◌, Bool, true, false, Option, none, some, List, [], ◌∷◌, update, Memory,
}
use itch_feed_handler.Types.{Timestamp}

-- `fd_`, with `none` for -1, and which descriptors of the process are open.
pub record Socket : Type 0 where
  pub fd : Option ℕ
  pub is_open : ℕ → Bool

-- `::close(fd_); fd_ = -1`
unfoldable pub shut : Socket → Socket
shut s = elim s.fd [ none ↦ s | some f ↦ record { fd = none; is_open = update s.is_open f false } ]

-- `fd_ = socket(…)`
unfoldable pub new_socket : Socket → Option ℕ → Socket
new_socket s none = record s { fd = none }
new_socket s (some f) = record { fd = some f; is_open = update s.is_open f true }

-- `RawPacket`
pub record RawPacket : Type 0 where
  pub bytes : Memory
  pub length : ℕ
  pub recv_timestamp_ns : Timestamp

-- What a call of `recv` comes to: an error, with whether it only says that nothing is there, or bytes.
pub data Arrived : Type 0 where
  error : Bool → Arrived
  bytes : Memory → ℕ → Arrived

-- What the two `recv` return: -1, or a count.
pub data Count : Type 0 where
  minus_one : Count
  count : ℕ → Count
