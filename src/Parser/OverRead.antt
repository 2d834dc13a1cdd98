-- ===== src/Parser/OverRead.antt =====
-- src/protocol/itch_parser.cpp: the six message types whose length is not checked.
use itch_feed_handler.Common.{ℕ, ◌≡◌, ◌≢◌, arith, some, Bool, true, false, Memory, advance}
use itch_feed_handler.Types.{Timestamp, MessageType, message_type_of}
use itch_feed_handler.Message.{ItchMsg, Body}
use itch_feed_handler.Wire.{be16}
use itch_feed_handler.Parser.Switch.{parse_body}
use itch_feed_handler.Parser.Message.{parse_message}

-- The types that are parsed and discarded.
abbrev pub is_discarded : MessageType → Bool
is_discarded MessageType.market_participant = true
is_discarded MessageType.mwcb_decline = true
is_discarded MessageType.mwcb_status = true
is_discarded MessageType.ipo_quoting_period = true
is_discarded MessageType.luld_auction_collar = true
is_discarded MessageType.operational_halt = true
is_discarded _ = false

discarded-body :
    (t : MessageType) (m : Memory) (len : ℕ)
    → is_discarded t ≡ true
    → parse_body t m len ≡ some Body.untouched
unfolding parse_body
discarded-body MessageType.market_participant m len h = cc
discarded-body t m len h = ground arith

locate_of : ItchMsg → ℕ
locate_of msg = msg.locate

-- A one-byte message of such a type is accepted, with a locate code that is read from the two bytes
-- behind the message: where these differ, so does the result.
pub parse_message_over_read :
    (ts : Timestamp) (m n : Memory)
    → m 0 ≡ n 0
    → is_discarded (message_type_of (m 0)) ≡ true
    → be16 (advance m 1) ≢ be16 (advance n 1)
    → parse_message ts m 1 ≢ parse_message ts n 1
unfolding parse_message
parse_message_over_read ts m n e d ne same = ne (
    ground (
      arith,
      discarded-body (message_type_of (m 0)) m 1 d,
      discarded-body (message_type_of (m 0)) n 1 d,
    ))
