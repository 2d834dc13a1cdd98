-- ===== src/Parser/Switch.antt =====
-- src/protocol/itch_parser.cpp, the `switch` of `parse_message`. A message is the memory from its first byte on and a length; what
-- the source reads past that length is whatever stands there.
use itch_feed_handler.Common.{ℕ, Option, none, some, ltb, ◌==◌, if◌then◌else◌, Memory, advance}
use itch_feed_handler.Types.{side_of, MessageType}
use itch_feed_handler.Message.{Body}
use itch_feed_handler.Wire.{be32, be64, chars4, chars8}
use itch_feed_handler.Wire.Layout.{Layout, size_of, offset_of}
use itch_feed_handler.Wire.Layout.{
  wire_system_event, wire_stock_directory, wire_stock_trading_action, wire_reg_sho, wire_add_order,
  wire_add_order_mpid, wire_order_executed, wire_order_executed_price, wire_order_cancel,
  wire_order_delete, wire_order_replace, wire_trade, wire_cross_trade, wire_broken_trade, wire_noii,
  wire_rpi_indicator,
}
use Prim.Native.String.{String}

-- `if (len < sizeof(W)) return false;` in front of the fields
abbrev sized : Layout → ℕ → Body → Option Body
sized l len b = if ltb len (size_of l) then none else some b

-- `w->name` in the struct laid over the message
abbrev pub field : Memory → Layout → String → Memory
field m l name = advance m (offset_of name l)

-- The cases of the `switch`, with `none` for `return false`.
abbrev parse_system_event : Memory → ℕ → Option Body
parse_system_event m len =
    let w = field m wire_system_event in
    sized wire_system_event len (Body.system_event (w "event_code" 0))

abbrev parse_stock_directory : Memory → ℕ → Option Body
parse_stock_directory m len =
    let w = field m wire_stock_directory in
    sized wire_stock_directory len (
      Body.stock_directory (record {
        stock = chars8 (w "stock");
        market_category = w "market_category" 0;
        round_lot_size = be32 (w "round_lot_size");
        financial_status = w "financial_status" 0;
        authenticity = w "authenticity" 0;
      }))

abbrev parse_stock_trading_action : Memory → ℕ → Option Body
parse_stock_trading_action m len =
    let w = field m wire_stock_trading_action in
    sized wire_stock_trading_action len (
      Body.trading_action (record {
        stock = chars8 (w "stock");
        trading_state = w "trading_state" 0;
        reason = chars4 (w "reason");
      }))

abbrev parse_reg_sho : Memory → ℕ → Option Body
parse_reg_sho m len =
    let w = field m wire_reg_sho in
    sized wire_reg_sho len (Body.reg_sho (chars8 (w "stock")) (w "reg_sho_action" 0))

abbrev parse_add_order : Memory → ℕ → Option Body
parse_add_order m len =
    let w = field m wire_add_order in
    sized wire_add_order len (
      Body.add_order (record {
        ref = be64 (w "order_ref");
        side = side_of (w "buy_sell" 0);
        price = be32 (w "price");
        shares = be32 (w "shares");
        stock = chars8 (w "stock");
        attribution = record { c0 = 0; c1 = 0; c2 = 0; c3 = 0 };
      }))

abbrev parse_add_order_mpid : Memory → ℕ → Option Body
parse_add_order_mpid m len =
    let w = field m wire_add_order_mpid in
    sized wire_add_order_mpid len (
      Body.add_order (record {
        ref = be64 (w "order_ref");
        side = side_of (w "buy_sell" 0);
        price = be32 (w "price");
        shares = be32 (w "shares");
        stock = chars8 (w "stock");
        attribution = chars4 (w "attribution");
      }))

abbrev parse_order_executed : Memory → ℕ → Option Body
parse_order_executed m len =
    let w = field m wire_order_executed in
    sized wire_order_executed len (
      Body.order_executed (record {
        ref = be64 (w "order_ref");
        executed_shares = be32 (w "executed_shares");
        match_number = be64 (w "match_number");
      }))

abbrev parse_order_executed_price : Memory → ℕ → Option Body
parse_order_executed_price m len =
    let w = field m wire_order_executed_price in
    sized wire_order_executed_price len (
      Body.order_executed_price (record {
        ref = be64 (w "order_ref");
        executed_shares = be32 (w "executed_shares");
        match_number = be64 (w "match_number");
        price = be32 (w "execution_price");
        printable = w "printable" 0 == b'Y';
      }))

abbrev parse_order_cancel : Memory → ℕ → Option Body
parse_order_cancel m len =
    let w = field m wire_order_cancel in
    sized wire_order_cancel len (
      Body.order_cancel
        (record { ref = be64 (w "order_ref"); cancelled_shares = be32 (w "cancelled_shares") }))

abbrev parse_order_delete : Memory → ℕ → Option Body
parse_order_delete m len =
    let w = field m wire_order_delete in
    sized wire_order_delete len (Body.order_delete (be64 (w "order_ref")))

abbrev parse_order_replace : Memory → ℕ → Option Body
parse_order_replace m len =
    let w = field m wire_order_replace in
    sized wire_order_replace len (
      Body.order_replace (record {
        orig_ref = be64 (w "orig_order_ref");
        new_ref = be64 (w "new_order_ref");
        new_shares = be32 (w "new_shares");
        new_price = be32 (w "new_price");
      }))

abbrev parse_trade : Memory → ℕ → Option Body
parse_trade m len =
    let w = field m wire_trade in
    sized wire_trade len (
      Body.trade (record {
        ref = be64 (w "order_ref");
        side = side_of (w "buy_sell" 0);
        shares = be32 (w "shares");
        price = be32 (w "price");
        stock = chars8 (w "stock");
        match_number = be64 (w "match_number");
      }))

abbrev parse_cross_trade : Memory → ℕ → Option Body
parse_cross_trade m len =
    let w = field m wire_cross_trade in
    sized wire_cross_trade len (
      Body.cross_trade (record {
        shares = be64 (w "shares");
        cross_price = be32 (w "cross_price");
        stock = chars8 (w "stock");
        match_number = be64 (w "match_number");
        cross_type = w "cross_type" 0;
      }))

abbrev parse_broken_trade : Memory → ℕ → Option Body
parse_broken_trade m len =
    let w = field m wire_broken_trade in
    sized wire_broken_trade len (Body.broken_trade (be64 (w "match_number")))

abbrev parse_noii : Memory → ℕ → Option Body
parse_noii m len =
    let w = field m wire_noii in
    sized wire_noii len (
      Body.noii (record {
        paired_shares = be64 (w "paired_shares");
        imbalance_shares = be64 (w "imbalance_shares");
        imbalance_direction = w "imbalance_direction" 0;
        stock = chars8 (w "stock");
        far_price = be32 (w "far_price");
        near_price = be32 (w "near_price");
        current_ref_price = be32 (w "current_ref_price");
        cross_type = w "cross_type" 0;
        price_variation_indicator = w "price_variation_indicator" 0;
      }))

abbrev parse_rpi_indicator : Memory → ℕ → Option Body
parse_rpi_indicator m len =
    let w = field m wire_rpi_indicator in
    sized wire_rpi_indicator len (Body.rpi (chars8 (w "stock")) (w "interest_flag" 0))

-- The `switch` of `parse_message`.
unfoldable pub parse_body : MessageType → Memory → ℕ → Option Body
parse_body MessageType.system_event m len = parse_system_event m len
parse_body MessageType.stock_directory m len = parse_stock_directory m len
parse_body MessageType.stock_trading_action m len = parse_stock_trading_action m len
parse_body MessageType.reg_sho m len = parse_reg_sho m len
parse_body MessageType.market_participant m len = some Body.untouched
parse_body MessageType.mwcb_decline m len = some Body.untouched
parse_body MessageType.mwcb_status m len = some Body.untouched
parse_body MessageType.ipo_quoting_period m len = some Body.untouched
parse_body MessageType.luld_auction_collar m len = some Body.untouched
parse_body MessageType.operational_halt m len = some Body.untouched
parse_body MessageType.add_order m len = parse_add_order m len
parse_body MessageType.add_order_mpid m len = parse_add_order_mpid m len
parse_body MessageType.order_executed m len = parse_order_executed m len
parse_body MessageType.order_executed_price m len = parse_order_executed_price m len
parse_body MessageType.order_cancel m len = parse_order_cancel m len
parse_body MessageType.order_delete m len = parse_order_delete m len
parse_body MessageType.order_replace m len = parse_order_replace m len
parse_body MessageType.trade m len = parse_trade m len
parse_body MessageType.cross_trade m len = parse_cross_trade m len
parse_body MessageType.broken_trade m len = parse_broken_trade m len
parse_body MessageType.noii m len = parse_noii m len
parse_body MessageType.rpi_indicator m len = parse_rpi_indicator m len
parse_body MessageType.unknown m len = none
parse_body MessageType.internal_session_reset m len = none
parse_body (MessageType.other c) m len = none
