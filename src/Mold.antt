-- ===== src/Mold.antt =====
-- src/protocol/moldudp64_parser.cpp and include/protocol/moldudp64.hpp: the transport header of a
-- packet. The fields of the header are in host order here: each accessor of the source swaps the
-- bytes of a big-endian field that was copied as it stands.
pub mod Packet
use itch_feed_handler.Common.{ℕ, ◌-◌, Bool, true, false, ltb, ◌==◌, if◌then◌else◌, Memory, advance}
use itch_feed_handler.Types.{moldudp64_heartbeat}
use itch_feed_handler.Wire.{be16, be64}

pub record Session : Type 0 where
  pub c0 : ℕ
  pub c1 : ℕ
  pub c2 : ℕ
  pub c3 : ℕ
  pub c4 : ℕ
  pub c5 : ℕ
  pub c6 : ℕ
  pub c7 : ℕ
  pub c8 : ℕ
  pub c9 : ℕ

pub record MoldUdp64Header : Type 0 where
  pub session : Session
  pub sequence_number : ℕ
  pub message_count : ℕ

abbrev pub is_heartbeat : MoldUdp64Header → Bool
is_heartbeat h = h.message_count == moldudp64_heartbeat

pub record ParseResult : Type 0 where
  pub valid : Bool
  pub header : MoldUdp64Header
  pub messages_begin : Memory
  pub messages_length : ℕ

-- `sizeof(MoldUDP64Header)`
abbrev pub header_size : ℕ
header_size = 20

-- `sizeof(MoldUDP64MessageBlock)`
abbrev pub block_size : ℕ
block_size = 2

abbrev chars10 : Memory → Session
chars10 p = record {
  c0 = p 0;
  c1 = p 1;
  c2 = p 2;
  c3 = p 3;
  c4 = p 4;
  c5 = p 5;
  c6 = p 6;
  c7 = p 7;
  c8 = p 8;
  c9 = p 9;
}

-- The bytes at `data`, copied into the header; what `get_sequence` and `get_message_count` return.
abbrev pub header_of : Memory → MoldUdp64Header
header_of p = record {
  session = chars10 p;
  sequence_number = be64 (advance p 10);
  message_count = be16 (advance p 18);
}

-- `MoldUDP64Parser::parse`. `blank` is the header that a default `ParseResult` leaves uninitialised,
-- `null` the memory that the null pointer would read.
unfoldable pub parse : MoldUdp64Header → Memory → Memory → ℕ → ParseResult
parse blank null p len =
    if ltb len header_size
    then record { valid = false; header = blank; messages_begin = null; messages_length = 0 }
    else if is_heartbeat (header_of p)
    then record { valid = true; header = header_of p; messages_begin = null; messages_length = 0 }
    else record {
      valid = true;
      header = header_of p;
      messages_begin = advance p header_size;
      messages_length = len - header_size;
    }
