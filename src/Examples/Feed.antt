-- ===== src/Examples/Feed.antt =====
-- The theorems on packets and messages at concrete bytes.
use itch_feed_handler.Common.{
  ℕ, ◌≡◌, arith, true, some, List, [], ◌∷◌, length, take, ◌==◌, ltb, if◌then◌else◌, Memory,
}
use itch_feed_handler.Types.{MessageType}
use itch_feed_handler.Message.{ItchMsg, Body}
use itch_feed_handler.Wire.Encode.{memory_of}
use itch_feed_handler.Mold.{MoldUdp64Header, is_heartbeat}
use itch_feed_handler.Mold.{parse as mold_parse}
use itch_feed_handler.Mold.Packet.{packet, parse-packet}
use itch_feed_handler.Parser.Message.{parse_message}
use itch_feed_handler.Parser.Frame.{parse}
use itch_feed_handler.Parser.Blocks.{blocks, accepted, parse-blocks}
use itch_feed_handler.Parser.Encode.{encode, wire_length}
use itch_feed_handler.Parser.RoundTrip.{parse_message-encode}

abbrev header : MoldUdp64Header
header = record {
  session = record {
    c0 = 48;
    c1 = 48;
    c2 = 48;
    c3 = 48;
    c4 = 48;
    c5 = 48;
    c6 = 48;
    c7 = 48;
    c8 = 48;
    c9 = 49;
  };
  sequence_number = 1000;
  message_count = 2;
}

abbrev payload : List ℕ
payload = 1 ∷ 2 ∷ []

-- An order is cancelled in part.
abbrev cancel : ItchMsg
cancel = record {
  type = MessageType.order_cancel;
  locate = 12;
  timestamp = 34200000000000;
  recv_timestamp = 99;
  body = Body.order_cancel (record { ref = 7; cancelled_shares = 3 });
}

-- The cancellation, and a message cut short.
abbrev messages : List (List ℕ)
messages = encode 0 cancel [] ∷ (b'D' ∷ 0 ∷ 12 ∷ []) ∷ []

-- A delete message that is cut off after three bytes.
abbrev three_bytes : ℕ → Memory
three_bytes other i = if ltb i 3 then b'D' else other

-- A market participant message of which only the type is there.
abbrev cut_short : ℕ → Memory
cut_short locate i = if i == 0 then b'L' else locate

parse-packet_example :
    mold_parse header (λ i. 0) (memory_of (packet header payload)) (length (packet header payload))
    ≡ (if is_heartbeat header
        then record {
          valid = true;
          header = header;
          messages_begin = (λ i. 0);
          messages_length = 0;
        }
        else record {
          valid = true;
          header = header;
          messages_begin = memory_of payload;
          messages_length = length payload;
        })
parse-packet_example = parse-packet header (λ i. 0) header payload (omega arith) (omega arith)

parse-blocks_example :
    parse 99
      (record {
        valid = true;
        header = header;
        messages_begin = memory_of (blocks messages);
        messages_length = length (blocks messages);
      })
      8
    ≡ some (take 8 (accepted 99 messages))
parse-blocks_example =
    parse-blocks 99 header messages 8 (omega arith, omega arith, (omega arith, omega arith, tt))

parse_message-encode_example :
    parse_message cancel.recv_timestamp
      (memory_of (encode 0 cancel (1 ∷ [])))
      (wire_length cancel.type)
    ≡ some cancel
parse_message-encode_example =
    parse_message-encode cancel 0 (1 ∷ []) (omega arith, omega arith) (omega arith) (omega arith)
