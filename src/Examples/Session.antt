-- ===== src/Examples/Session.antt =====
-- The theorems on the parser thread and the session at a parser that has just started.
use itch_feed_handler.Common.{
  ℕ, ◌+◌, ◌^◌, ◌≤◌, ◌≡◌, ◌≢◌, arith, refl, ◌%◌, true, false, not, ◌||◌, some, List, [], ◌∷◌, Memory,
  length,
}
use itch_feed_handler.Types.{MessageType, message_type_of, code_of}
use itch_feed_handler.Message.{ItchMsg}
use itch_feed_handler.Wire.{be16, be48, be64}
use itch_feed_handler.Wire.Encode.{memory_of}
use itch_feed_handler.Mold.{Session, MoldUdp64Header, ParseResult, is_heartbeat}
use itch_feed_handler.Mold
use itch_feed_handler.Mold.Packet.{packet}
use itch_feed_handler.Parser.Frame
use itch_feed_handler.Parser.Blocks.{blocks}
use itch_feed_handler.Parser.Encode.{encode}
use itch_feed_handler.Parser.Message.{parse_message}
use itch_feed_handler.Parser.Switch.{parse_body}
use itch_feed_handler.Parser.Kinds.{parse_message-fits}
use itch_feed_handler.Book.Published.{no_bbo}
use itch_feed_handler.Rings.Slots.{PacketSlot}
use itch_feed_handler.Shard.Feeding.{fits}
use itch_feed_handler.Lifecycle.Manager.{SessionState, SessionManager, Subsystems, no_session}
use itch_feed_handler.Tracking.{track}
use itch_feed_handler.Tracking.Process.{ParserThread, max_msgs_per_packet, process_slot}
use itch_feed_handler.Tracking.Packets.{ArePlain, route_all, process_slot-routes}
use itch_feed_handler.Examples.Routing.{directory, router, deletion, blank}
use itch_feed_handler.Examples.Packets.{tracker, tracking}

abbrev today : Session
today = record no_session { c0 = 50; c9 = 49 }

abbrev yesterday : Session
yesterday = record no_session { c0 = 49; c9 = 49 }

-- One watched ticker, one callback.
abbrev pub manager : SessionManager
manager = record {
  session = yesterday;
  state = SessionState.closed;
  eod_archive_enabled = true;
  eod_callbacks = λ i. true;
  eod_callback_count = 1;
  watched_bits = λ i. 0;
  watched_tickers = λ i. blank;
  watched_ticker_count = 1;
}

abbrev subsystems : Subsystems
subsystems = record {
  manager = manager;
  seq_tracker = tracker;
  sym_dir = directory;
  bbo_pub = record { slots = λ i. no_bbo; capacity = 100 };
  router = router;
  eod_calls = [];
}

abbrev delete_bytes : Memory
delete_bytes = memory_of (encode 0 deletion [])

parse_message-fits_example :
    (fits deletion.type deletion.body ≡ true) × (deletion.type ≢ MessageType.internal_session_reset)
unfolding parse_message parse_body message_type_of code_of be16 be48 be64
parse_message-fits_example = parse_message-fits 6 delete_bytes 19 deletion refl

abbrev blank_header : MoldUdp64Header
blank_header = record { session = no_session; sequence_number = 0; message_count = 0 }

abbrev header : MoldUdp64Header
header = record { session = today; sequence_number = 11; message_count = 1 }

abbrev content : List ℕ
content = packet header (blocks (encode 0 deletion [] ∷ []))

abbrev arrived : PacketSlot
arrived = record { bytes = memory_of content; length = length content; recv_ts = 6 }

abbrev parser : ParserThread
parser = record {
  tracking = tracking;
  subsystems = subsystems;
  parse_lat = record { buckets = λ i. 0; count = 0; max = 0 };
  messages_parsed = 40;
  msg_type_count = λ i. 0;
}

abbrev arrived_mold : ParseResult
arrived_mold = Mold.parse blank_header (λ i. 0) arrived.bytes arrived.length

process_slot-routes_example :
    let skipped = not arrived_mold.valid || is_heartbeat arrived_mold.header in
    (p' : ParserThread) × (process_slot blank_header (λ i. 0) parser arrived 7 (λ i. 8) ≡ some p')
    × (skipped ≡ true → p' ≡ parser)
    × (skipped ≡ false
        → (msgs : List ItchMsg) × (Frame.parse 6 arrived_mold max_msgs_per_packet ≡ some msgs)
          × (length msgs ≤ max_msgs_per_packet)
          × (p'.messages_parsed ≡ (40 + length msgs) % 2 ^ 64)
          × (ArePlain msgs
              → (p'.subsystems.router ≡ route_all router msgs)
                × (p'.tracking ≡ track tracking arrived_mold 7)))
process_slot-routes_example =
    process_slot-routes blank_header (λ i. 0) parser arrived 7 (λ i. 8) (omega arith)
