-- ===== src/Parser/Local.antt =====
-- src/protocol/itch_parser.cpp: `parse_message` reads inside its message, as soon as that is long
-- enough to hold the locate code.
use itch_feed_handler.Common.{ℕ, ◌+◌, ◌≤◌, ◌<◌, ◌≡◌, refl, arith, Memory, advance}
use itch_feed_handler.Types.{MessageType, message_type_of, Timestamp}
use itch_feed_handler.Wire.{be16, be32, be48, be64}
use itch_feed_handler.Parser.Switch.{parse_body}
use itch_feed_handler.Parser.Message.{parse_message}

-- Two memories agree on the first `len` bytes.
abbrev pub Agree : ℕ → Memory → Memory → Type 0
Agree len m n = (i : ℕ) → i < len → m i ≡ n i

module _ (m n : Memory) (len : ℕ) (same : Agree len m n) where
  be16-local : (o : ℕ) → o + 2 ≤ len → be16 (advance m o) ≡ be16 (advance n o)
  unfolding be16
  be16-local o h = rw (same (o + 0) (omega arith), same (o + 1) (omega arith))

  be32-local : (o : ℕ) → o + 4 ≤ len → be32 (advance m o) ≡ be32 (advance n o)
  unfolding be32
  be32-local o h = rw (
    same (o + 0) (omega arith),
    same (o + 1) (omega arith),
    same (o + 2) (omega arith),
    same (o + 3) (omega arith),
  )

  be48-local : (o : ℕ) → o + 6 ≤ len → be48 (advance m o) ≡ be48 (advance n o)
  unfolding be48
  be48-local o h = rw (
    same (o + 0) (omega arith),
    same (o + 1) (omega arith),
    same (o + 2) (omega arith),
    same (o + 3) (omega arith),
    same (o + 4) (omega arith),
    same (o + 5) (omega arith),
  )

  be64-local : (o : ℕ) → o + 8 ≤ len → be64 (advance m o) ≡ be64 (advance n o)
  unfolding be64
  be64-local o h = rw (
    same (o + 0) (omega arith),
    same (o + 1) (omega arith),
    same (o + 2) (omega arith),
    same (o + 3) (omega arith),
    same (o + 4) (omega arith),
    same (o + 5) (omega arith),
    same (o + 6) (omega arith),
    same (o + 7) (omega arith),
  )

  parse_body-local : (t : MessageType) → parse_body t m len ≡ parse_body t n len
  unfolding parse_body
  parse_body-local MessageType.system_event = ground (arith, same 11)
  parse_body-local MessageType.stock_directory = ground (
    arith,
    same 11,
    same 12,
    same 13,
    same 14,
    same 15,
    same 16,
    same 17,
    same 18,
    same 19,
    same 20,
    be32-local 21,
    same 29,
  )
  parse_body-local MessageType.stock_trading_action = ground (
    arith,
    same 11,
    same 12,
    same 13,
    same 14,
    same 15,
    same 16,
    same 17,
    same 18,
    same 19,
    same 21,
    same 22,
    same 23,
    same 24,
  )
  parse_body-local MessageType.reg_sho =
      ground
        (arith, same 11, same 12, same 13, same 14, same 15, same 16, same 17, same 18, same 19)
  parse_body-local MessageType.market_participant = refl
  parse_body-local MessageType.mwcb_decline = refl
  parse_body-local MessageType.mwcb_status = refl
  parse_body-local MessageType.ipo_quoting_period = refl
  parse_body-local MessageType.luld_auction_collar = refl
  parse_body-local MessageType.operational_halt = refl
  parse_body-local MessageType.add_order = ground (
    arith,
    be64-local 11,
    same 19,
    be32-local 20,
    same 24,
    same 25,
    same 26,
    same 27,
    same 28,
    same 29,
    same 30,
    same 31,
    be32-local 32,
  )
  parse_body-local MessageType.add_order_mpid = ground (
    arith,
    be64-local 11,
    same 19,
    be32-local 20,
    same 24,
    same 25,
    same 26,
    same 27,
    same 28,
    same 29,
    same 30,
    same 31,
    be32-local 32,
    same 36,
    same 37,
    same 38,
    same 39,
  )
  parse_body-local MessageType.order_executed =
      ground (arith, be64-local 11, be32-local 19, be64-local 23)
  parse_body-local MessageType.order_executed_price =
      ground (arith, be64-local 11, be32-local 19, be64-local 23, same 31, be32-local 32)
  parse_body-local MessageType.order_cancel = ground (arith, be64-local 11, be32-local 19)
  parse_body-local MessageType.order_delete = ground (arith, be64-local 11)
  parse_body-local MessageType.order_replace =
      ground (arith, be64-local 11, be64-local 19, be32-local 27, be32-local 31)
  parse_body-local MessageType.trade = ground (
    arith,
    be64-local 11,
    same 19,
    be32-local 20,
    same 24,
    same 25,
    same 26,
    same 27,
    same 28,
    same 29,
    same 30,
    same 31,
    be32-local 32,
    be64-local 36,
  )
  parse_body-local MessageType.cross_trade = ground (
    arith,
    be64-local 11,
    same 19,
    same 20,
    same 21,
    same 22,
    same 23,
    same 24,
    same 25,
    same 26,
    be32-local 27,
    be64-local 31,
    same 39,
  )
  parse_body-local MessageType.broken_trade = ground (arith, be64-local 11)
  parse_body-local MessageType.noii = ground (
    arith,
    be64-local 11,
    be64-local 19,
    same 27,
    same 28,
    same 29,
    same 30,
    same 31,
    same 32,
    same 33,
    same 34,
    same 35,
    be32-local 36,
    be32-local 40,
    be32-local 44,
    same 48,
    same 49,
  )
  parse_body-local MessageType.rpi_indicator =
      ground
        (arith, same 11, same 12, same 13, same 14, same 15, same 16, same 17, same 18, same 19)
  parse_body-local MessageType.unknown = refl
  parse_body-local MessageType.internal_session_reset = refl
  parse_body-local (MessageType.other c) = refl

-- A message of three bytes or more is parsed from its own bytes alone: what stands behind it in
-- memory makes no difference, also where the message is shorter than its type wants.
pub parse_message-local :
    (ts : Timestamp) (m n : Memory) (len : ℕ)
    → 3 ≤ len
    → Agree len m n
    → parse_message ts m len ≡ parse_message ts n len
unfolding parse_message
parse_message-local ts m n len h same = ground (
  arith,
  same 0,
  parse_body-local m n len same (message_type_of (m 0)),
  be16-local m n len same 1,
  be48-local m n len same 5,
)
