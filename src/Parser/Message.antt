-- ===== src/Parser/Message.antt =====
-- src/protocol/itch_parser.cpp, `ItchParser::parse_message`: the common header, then the `switch`.
use itch_feed_handler.Common.{ℕ, Option, none, some, ltb, leb, if◌then◌else◌, Memory, advance}
use itch_feed_handler.Types.{Timestamp, message_type_of}
use itch_feed_handler.Message.{ItchMsg}
use itch_feed_handler.Wire.{be16, be48}
use itch_feed_handler.Parser.Switch.{parse_body}

-- `kOffLocate`, `kOffTimestamp` and `kOffPayload`
abbrev pub off_locate : ℕ
off_locate = 1

abbrev pub off_timestamp : ℕ
off_timestamp = 5

abbrev pub off_payload : ℕ
off_payload = 11

-- `ItchParser::parse_message` on a fresh message with its receive time, with `none` for `false`.
-- What a refused message leaves in the buffer is overwritten or lies past the returned count.
unfoldable pub parse_message : Timestamp → Memory → ℕ → Option ItchMsg
parse_message recv_ts m len =
    if ltb len 1 then none else elim (parse_body (message_type_of (m 0)) m len) [
      | none ↦ none
      | some b ↦ some (record {
        type = message_type_of (m 0);
        locate = be16 (advance m off_locate);
        timestamp = if leb off_payload len then be48 (advance m off_timestamp) else 0;
        recv_timestamp = recv_ts;
        body = b;
      })
    ]
