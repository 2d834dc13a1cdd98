-- ===== src/Message.antt =====
-- include/protocol/itch_messages.hpp, `ItchMsg`: a message in host byte order.
use itch_feed_handler.Common.{ℕ, Bool}
use itch_feed_handler.Types.{Price, Timestamp, Side, MessageType}

-- `char[4]`
pub record Chars4 : Type 0 where
  pub c0 : ℕ
  pub c1 : ℕ
  pub c2 : ℕ
  pub c3 : ℕ

-- `char[8]`
pub record Chars8 : Type 0 where
  pub c0 : ℕ
  pub c1 : ℕ
  pub c2 : ℕ
  pub c3 : ℕ
  pub c4 : ℕ
  pub c5 : ℕ
  pub c6 : ℕ
  pub c7 : ℕ

pub record AddOrder : Type 0 where
  pub ref : ℕ
  pub side : Side
  pub price : Price
  pub shares : ℕ
  pub stock : Chars8
  pub attribution : Chars4

pub record OrderExecuted : Type 0 where
  pub ref : ℕ
  pub executed_shares : ℕ
  pub match_number : ℕ

pub record OrderExecutedPrice : Type 0 where
  pub ref : ℕ
  pub executed_shares : ℕ
  pub match_number : ℕ
  pub price : Price
  pub printable : Bool

pub record OrderCancel : Type 0 where
  pub ref : ℕ
  pub cancelled_shares : ℕ

pub record OrderReplace : Type 0 where
  pub orig_ref : ℕ
  pub new_ref : ℕ
  pub new_shares : ℕ
  pub new_price : Price

pub record StockDirectory : Type 0 where
  pub stock : Chars8
  pub market_category : ℕ
  pub round_lot_size : ℕ
  pub financial_status : ℕ
  pub authenticity : ℕ

pub record TradingAction : Type 0 where
  pub stock : Chars8
  pub trading_state : ℕ
  pub reason : Chars4

pub record Trade : Type 0 where
  pub ref : ℕ
  pub side : Side
  pub shares : ℕ
  pub price : Price
  pub stock : Chars8
  pub match_number : ℕ

pub record CrossTrade : Type 0 where
  pub shares : ℕ
  pub cross_price : Price
  pub stock : Chars8
  pub match_number : ℕ
  pub cross_type : ℕ

pub record Noii : Type 0 where
  pub paired_shares : ℕ
  pub imbalance_shares : ℕ
  pub imbalance_direction : ℕ
  pub stock : Chars8
  pub far_price : Price
  pub near_price : Price
  pub current_ref_price : Price
  pub cross_type : ℕ
  pub price_variation_indicator : ℕ

-- The members of the union. `untouched` is the value-initialised union of a message type that
-- fills none of them.
pub data Body : Type 0 where
  add_order : AddOrder → Body
  order_executed : OrderExecuted → Body
  order_executed_price : OrderExecutedPrice → Body
  order_cancel : OrderCancel → Body
  order_delete : ℕ → Body
  order_replace : OrderReplace → Body
  stock_directory : StockDirectory → Body
  trading_action : TradingAction → Body
  trade : Trade → Body
  cross_trade : CrossTrade → Body
  broken_trade : ℕ → Body
  noii : Noii → Body
  system_event : ℕ → Body
  reg_sho : Chars8 → ℕ → Body
  rpi : Chars8 → ℕ → Body
  untouched : Body

pub record ItchMsg : Type 0 where
  pub type : MessageType
  pub locate : ℕ
  pub timestamp : Timestamp
  pub recv_timestamp : Timestamp
  pub body : Body
