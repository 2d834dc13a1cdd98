-- ===== src/Parser/Frame.antt =====
-- src/protocol/itch_parser.cpp, `ItchParser::parse`: the message blocks of one packet.
use itch_feed_handler.Common.{
  ℕ, ◌+◌, ◌-◌, zero, suc, Bool, true, false, List, [], ◌∷◌, Option, none, some, ltb, ◌==◌,
  if◌then◌else◌, ◌||◌, not, Memory, advance,
}
use mathlib.Core.Option
use itch_feed_handler.Types.{Timestamp}
use itch_feed_handler.Message.{ItchMsg}
use itch_feed_handler.Wire.{be16}
use itch_feed_handler.Mold.{ParseResult, block_size}
use itch_feed_handler.Parser.Message.{parse_message}

-- The loop's condition and its three `break`s: no bytes or no room left, no length field, an empty
-- block, a block that the packet does not hold whole.
unfoldable pub ends : ℕ → ℕ → ℕ → Bool
ends remaining room msg_len =
    remaining == 0
    || room == 0
    || ltb remaining block_size
    || msg_len == 0
    || ltb (remaining - block_size) msg_len

-- `if (parse_message(...)) ++count;`, then the rounds that follow.
abbrev pub count_parsed : Option ItchMsg → (ℕ → Option (List ItchMsg)) → ℕ → Option (List ItchMsg)
count_parsed none rest room = rest room
count_parsed (some msg) rest room = Option.map (λ msgs. msg ∷ msgs) (rest (room - 1))

-- The `while` loop, given the memory at `ptr`, the bytes that remain and the messages that still
-- fit. The first argument bounds the rounds; `none` means that it ran out.
unfoldable pub parse_loop : ℕ → Timestamp → Memory → ℕ → ℕ → Option (List ItchMsg)
parse_loop zero recv_ts ptr remaining room = none
parse_loop (suc fuel) recv_ts ptr remaining room = elim (ends remaining room (be16 ptr)) [
  | true ↦ some []
  | false ↦
      count_parsed (parse_message recv_ts (advance ptr block_size) (be16 ptr))
        (parse_loop fuel recv_ts (advance ptr (block_size + be16 ptr))
          (remaining - (block_size + be16 ptr)))
        room
]

-- `ItchParser::parse`: the messages that it writes to `out_buf`, as many as it returns. A negative
-- `max_msgs` is as good as 0.
unfoldable pub parse : Timestamp → ParseResult → ℕ → Option (List ItchMsg)
parse recv_ts mold max_msgs =
    if not mold.valid || max_msgs == 0
    then some []
    else parse_loop (mold.messages_length + 1) recv_ts mold.messages_begin mold.messages_length
        max_msgs
