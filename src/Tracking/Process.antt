-- ===== src/Tracking/Process.antt =====
-- src/workers/parser_thread.cpp and include/workers/parser_thread.hpp, `process_slot` and `resolve`: one
-- packet, from its bytes to the queues of the shards. The readings of the clock are arguments.
use itch_feed_handler.Common.{
  ℕ, ◌+◌, ◌-◌, ◌%◌, ◌^◌, ◌&&◌, ◌||◌, not, Option, some, List, [], ◌∷◌, ltb, leb, if◌then◌else◌,
  ◌>>=◌, update, Memory,
}
use itch_feed_handler.Types.{MessageType, Timestamp, code_of}
use itch_feed_handler.Message.{ItchMsg, Body}
use itch_feed_handler.Mold.{Session, ParseResult, MoldUdp64Header, is_heartbeat}
use itch_feed_handler.Mold
use itch_feed_handler.Parser.Frame
use itch_feed_handler.Histogram.{LatencyHistogram, record_latency}
use itch_feed_handler.Rings.Slots.{PacketSlot, ZeroCopyRing, slot, recovery_slot}
use itch_feed_handler.Merger.Feeds.{FeedSource, MergedSlot}
use itch_feed_handler.Lifecycle.Manager.{Subsystems, on_system_event, try_resolve_watched}
use itch_feed_handler.Routing.Router.{route}
use itch_feed_handler.Tracking.{Tracking, track}

-- `ItchParser::MAX_MSGS_PER_PACKET`
abbrev pub max_msgs_per_packet : ℕ
max_msgs_per_packet = 128

-- The tracker of the sequence numbers is in `tracking`; the one in `subsystems` is the same object
-- and set from it before it is used.
pub record ParserThread : Type 0 where
  pub tracking : Tracking
  pub subsystems : Subsystems
  pub parse_lat : LatencyHistogram
  pub messages_parsed : ℕ
  pub msg_type_count : ℕ → ℕ

-- `ParserThread::resolve`
unfoldable pub resolve : ZeroCopyRing → ZeroCopyRing → MergedSlot → PacketSlot
resolve primary secondary ms = elim ms.source [
  | FeedSource.primary ↦ slot primary ms.slot_idx
  | FeedSource.secondary ↦ slot secondary ms.slot_idx
  | FeedSource.recovery ↦ recovery_slot primary ms.slot_idx
]

-- The session manager is called with the shared tracker.
unfoldable pub tell_session : ParserThread → ℕ → Session → ParserThread
tell_session p code session =
    let s =
      on_system_event (record p.subsystems { seq_tracker = p.tracking.tracker }) code
        (some session) in
    record p { subsystems = s; tracking = record p.tracking { tracker = s.seq_tracker } }

-- The messages that the session manager sees before they are routed. A message whose type and union
-- do not go together is none that the parser makes, so it has no effect here.
unfoldable pub notify : ParserThread → MessageType → ℕ → Body → Session → ParserThread
notify p MessageType.system_event loc (Body.system_event code) session = tell_session p code session
notify p MessageType.stock_directory loc (Body.stock_directory d) session = record p {
  subsystems = record p.subsystems {
    manager = try_resolve_watched p.subsystems.manager loc d.stock;
  };
}
notify p _ loc _ session = p

abbrev next64 : ℕ → ℕ
next64 n = (n + 1) % 2 ^ 64

-- The body of the loop over the messages.
unfoldable pub route_message :
    ParserThread → Timestamp → Session → Timestamp → ItchMsg → ParserThread
route_message p recv_ts session parse_ts msg =
    let timed = record p {
      parse_lat =
          if ltb 0 recv_ts && leb recv_ts parse_ts
          then record_latency p.parse_lat (parse_ts - recv_ts)
          else p.parse_lat;
    } in
    let told = notify timed msg.type msg.locate msg.body session in
    let type_idx = code_of msg.type in
    record told {
      subsystems = record told.subsystems { router = (route told.subsystems.router msg).1 };
      messages_parsed = next64 told.messages_parsed;
      msg_type_count = update told.msg_type_count type_idx (next64 (told.msg_type_count type_idx));
    }

-- The loop, from message i on. `clock i` is the time that is read for message i.
unfoldable pub route_messages :
    ParserThread → Timestamp → Session → (ℕ → Timestamp) → ℕ → List ItchMsg → ParserThread
route_messages p recv_ts session clock i [] = p
route_messages p recv_ts session clock i (msg ∷ rest) =
    route_messages (route_message p recv_ts session (clock i) msg) recv_ts session clock (i + 1)
      rest

-- `ParserThread::process_slot`, with the time that is read for a gap and those for the messages.
-- `blank` and `null` are what `MoldUDP64Parser::parse` leaves unset. `none` is a parser that does not
-- end.
unfoldable pub process_slot :
    MoldUdp64Header
    → Memory
    → ParserThread
    → PacketSlot
    → Timestamp
    → (ℕ → Timestamp)
    → Option ParserThread
process_slot blank null p s now clock =
    let mold = Mold.parse blank null s.bytes s.length in
    if not mold.valid || is_heartbeat mold.header
    then some p
    else Frame.parse s.recv_ts mold max_msgs_per_packet >>= λ msgs. some (
        route_messages (record p { tracking = track p.tracking mold now }) s.recv_ts
          mold.header.session clock 0 msgs)
