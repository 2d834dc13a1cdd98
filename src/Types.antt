-- ===== src/Types.antt =====
-- include/common/types.hpp and include/common/constants.hpp: the vocabulary of the feed handler.
-- A fixed-width integer is a number; a wrap-around is written out where the code can reach it.
-- An enumeration over `char` can hold any byte, hence the constructors `other`.
use itch_feed_handler.Common.{ℕ, ◌≡◌, Bool, true, false, ◌==◌, if◌then◌else◌, arith}

-- `Price` is an `int64_t` in the program. Every price is made by a cast from an unsigned 32-bit
-- field, so none is negative.
abbrev pub Price : Type 0
Price = ℕ

abbrev pub Timestamp : Type 0
Timestamp = ℕ

abbrev pub num_shards : ℕ
num_shards = 8

abbrev pub max_locate : ℕ
max_locate = 65536

abbrev pub max_price_levels : ℕ
max_price_levels = 256

abbrev pub moldudp64_heartbeat : ℕ
moldudp64_heartbeat = 0xFFFF

pub data Side : Type 0 where
  buy sell : Side
  other : ℕ → Side

-- `static_cast<Side>(c)`
unfoldable pub side_of : ℕ → Side
side_of c = if c == b'B' then Side.buy else if c == b'S' then Side.sell else Side.other c

-- `side == Side::Buy`
abbrev pub is_buy : Side → Bool
is_buy Side.buy = true
is_buy Side.sell = false
is_buy (Side.other c) = false

pub data MessageType : Type 0 where
  system_event stock_directory stock_trading_action reg_sho market_participant : MessageType
  mwcb_decline mwcb_status ipo_quoting_period luld_auction_collar operational_halt : MessageType
  add_order add_order_mpid order_executed order_executed_price order_cancel : MessageType
  order_delete order_replace trade cross_trade broken_trade noii rpi_indicator : MessageType
  unknown internal_session_reset : MessageType
  other : ℕ → MessageType

-- `static_cast<uint8_t>(type)`
unfoldable pub code_of : MessageType → ℕ
code_of MessageType.system_event = b'S'
code_of MessageType.stock_directory = b'R'
code_of MessageType.stock_trading_action = b'H'
code_of MessageType.reg_sho = b'Y'
code_of MessageType.market_participant = b'L'
code_of MessageType.mwcb_decline = b'V'
code_of MessageType.mwcb_status = b'W'
code_of MessageType.ipo_quoting_period = b'K'
code_of MessageType.luld_auction_collar = b'J'
code_of MessageType.operational_halt = b'h'
code_of MessageType.add_order = b'A'
code_of MessageType.add_order_mpid = b'F'
code_of MessageType.order_executed = b'E'
code_of MessageType.order_executed_price = b'C'
code_of MessageType.order_cancel = b'X'
code_of MessageType.order_delete = b'D'
code_of MessageType.order_replace = b'U'
code_of MessageType.trade = b'P'
code_of MessageType.cross_trade = b'Q'
code_of MessageType.broken_trade = b'B'
code_of MessageType.noii = b'I'
code_of MessageType.rpi_indicator = b'N'
code_of MessageType.unknown = b'?'
code_of MessageType.internal_session_reset = 1
code_of (MessageType.other c) = c

-- `static_cast<MessageType>(c)`: the codes of the order messages first.
unfoldable pub message_type_of : ℕ → MessageType
message_type_of c =
    if c == b'A'
    then MessageType.add_order
    else if c == b'F'
    then MessageType.add_order_mpid
    else if c == b'E'
    then MessageType.order_executed
    else if c == b'C'
    then MessageType.order_executed_price
    else if c == b'X'
    then MessageType.order_cancel
    else if c == b'D'
    then MessageType.order_delete
    else if c == b'U'
    then MessageType.order_replace
    else if c == b'S'
    then MessageType.system_event
    else if c == b'R'
    then MessageType.stock_directory
    else if c == b'H'
    then MessageType.stock_trading_action
    else if c == b'Y'
    then MessageType.reg_sho
    else if c == b'L'
    then MessageType.market_participant
    else if c == b'V'
    then MessageType.mwcb_decline
    else if c == b'W'
    then MessageType.mwcb_status
    else if c == b'K'
    then MessageType.ipo_quoting_period
    else if c == b'J'
    then MessageType.luld_auction_collar
    else if c == b'h'
    then MessageType.operational_halt
    else if c == b'P'
    then MessageType.trade
    else if c == b'Q'
    then MessageType.cross_trade
    else if c == b'B'
    then MessageType.broken_trade
    else if c == b'I'
    then MessageType.noii
    else if c == b'N'
    then MessageType.rpi_indicator
    else if c == b'?'
    then MessageType.unknown
    else if c == 1
    then MessageType.internal_session_reset
    else MessageType.other c

-- The cast loses nothing: every byte is read back.
pub code_of-message_type_of : (c : ℕ) → code_of (message_type_of c) ≡ c
unfolding code_of message_type_of
code_of-message_type_of c = ground arith
