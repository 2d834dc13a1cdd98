-- ===== src/Shard/Worker.antt =====
-- src/workers/shard_worker.cpp, `ShardWorker`, and include/orderbook/order_book_pool.hpp: the books of
-- one shard, which share its pool of orders, its map and its counters. The readings of the clock
-- are arguments. The log lines are left out.
use itch_feed_handler.Common.{
  ℕ, ◌+◌, ◌-◌, ◌*◌, ◌/◌, ◌%◌, ◌^◌, Bool, true, false, ◌&&◌, not, Option, none, some, ltb, leb, ◌==◌,
  if◌then◌else◌, ◌>>=◌, update,
}
use mathlib.Core.Option
use itch_feed_handler.Types.{MessageType, Timestamp, max_locate, num_shards, code_of}
use itch_feed_handler.Message.{ItchMsg, Body}
use itch_feed_handler.Book.Pool.{OrderPool}
use itch_feed_handler.Book.Map.{OrderMap}
use itch_feed_handler.Book.Pool
use itch_feed_handler.Book.Map
use itch_feed_handler.Book.Levels.{empty_level}
use itch_feed_handler.Book.Handlers.{
  Level2Book, TradingStatus, clear, on_add_order, on_order_executed, on_order_executed_price,
  on_order_cancel, on_order_delete, on_order_replace, on_trading_action, get_bbo,
}
use itch_feed_handler.Book.Published.{BboPublisher, publish}
use itch_feed_handler.Histogram.{LatencyHistogram, record_latency}
use itch_feed_handler.Lifecycle.Manager.{
  SessionManager, SessionState, is_warmup_symbol, is_open_state,
}

-- `OrderBookPool::BOOKS_PER_SHARD`
abbrev pub books_per_shard : ℕ
books_per_shard = max_locate / num_shards

-- The slab of books, by index. `pool`, `map` and the counters are the shard's; those in a book of
-- the slab stand for the references to them.
pub record ShardWorker : Type 0 where
  pub shard_id : ℕ
  pub slab : ℕ → Level2Book
  pub book_active : ℕ → Bool
  pub pool : OrderPool
  pub map : OrderMap
  pub price_level_drops : ℕ
  pub order_replaces_inplace : ℕ
  pub bbo_pub : BboPublisher
  pub book_lat : LatencyHistogram

-- The index of a locate code in the slab, as `OrderBookPool::book` and `book_active_` take it.
abbrev pub slab_index : ℕ → ℕ
slab_index loc = loc / num_shards

-- The book that `OrderBookPool::OrderBookPool` places at an index: the levels are empty.
unfoldable pub placed : ℕ → OrderPool → OrderMap → ℕ → Level2Book
placed shard_id pool map i = record {
  locate = (i * num_shards + shard_id) % 2 ^ 16;
  status = TradingStatus.halted;
  pool = pool;
  map = map;
  drop_ctr = none;
  inplace_ctr = none;
  bids = record { levels = λ k. empty_level 0; count = 0 };
  asks = record { levels = λ k. empty_level 0; count = 0 };
}

-- A book of the slab with what its references lead to.
unfoldable pub open_book : ShardWorker → ℕ → Level2Book
open_book w i =
    let b = w.slab i in
    record b {
      pool = w.pool;
      map = w.map;
      drop_ctr = Option.map (λ _. w.price_level_drops) b.drop_ctr;
      inplace_ctr = Option.map (λ _. w.order_replaces_inplace) b.inplace_ctr;
    }

-- The counter of the shard after a handler, which writes it if the book refers to it.
unfoldable pub counter_after : Option ℕ → ℕ → ℕ
counter_after none old = old
counter_after (some n) old = n

-- What a handler did to a book and what its references lead to.
unfoldable pub close_book : ShardWorker → ℕ → Level2Book → ShardWorker
close_book w i b = record w {
  slab = update w.slab i b;
  pool = b.pool;
  map = b.map;
  price_level_drops = counter_after b.drop_ctr w.price_level_drops;
  order_replaces_inplace = counter_after b.inplace_ctr w.order_replaces_inplace;
}

-- `ShardWorker::activate_book`
unfoldable pub activate_book : ShardWorker → ℕ → ShardWorker
activate_book w loc =
    let i = slab_index loc in
    if w.book_active i then w else record w {
      book_active = update w.book_active i true;
      slab = update w.slab i (record (w.slab i) {
        drop_ctr = some w.price_level_drops;
        inplace_ctr = some w.order_replaces_inplace;
      });
    }

-- `ShardWorker::clear_all_books`: the index of an active book is that of its own locate code.
unfoldable pub clear_all_books : ShardWorker → ShardWorker
clear_all_books w = record w {
  slab = λ i. if ltb i books_per_shard && w.book_active i then clear (w.slab i) else w.slab i;
  book_active = λ i. if ltb i books_per_shard then false else w.book_active i;
}

-- The `switch` of `dispatch`. `ignored` is its default.
pub data Handled : Type 0 where
  ignored : Handled
  book_after : Option Level2Book → Handled

-- A message whose type and union do not go together is none that the parser makes, so the case is
-- left with no result.
unfoldable pub handle : Level2Book → MessageType → Body → Handled
handle b MessageType.add_order (Body.add_order m) = book_after (on_add_order b m)
handle b MessageType.add_order_mpid (Body.add_order m) = book_after (on_add_order b m)
handle b MessageType.order_executed (Body.order_executed m) = book_after (on_order_executed b m)
handle b MessageType.order_executed_price (Body.order_executed_price m) =
    book_after (on_order_executed_price b m)
handle b MessageType.order_cancel (Body.order_cancel m) = book_after (on_order_cancel b m)
handle b MessageType.order_delete (Body.order_delete ref) = book_after (on_order_delete b ref)
handle b MessageType.order_replace (Body.order_replace m) = book_after (on_order_replace b m)
handle b MessageType.add_order _ = book_after none
handle b MessageType.add_order_mpid _ = book_after none
handle b MessageType.order_executed _ = book_after none
handle b MessageType.order_executed_price _ = book_after none
handle b MessageType.order_cancel _ = book_after none
handle b MessageType.order_delete _ = book_after none
handle b MessageType.order_replace _ = book_after none
handle b _ _ = ignored

-- The end of `dispatch`: the best prices are published and the latency is recorded.
unfoldable pub publish_book : ShardWorker → ItchMsg → Level2Book → Timestamp → ShardWorker
publish_book w msg b after = record w {
  bbo_pub = publish w.bbo_pub msg.locate (record (get_bbo b) { ts = msg.timestamp });
  book_lat =
      if ltb 0 msg.recv_timestamp && leb msg.recv_timestamp after
      then record_latency w.book_lat (after - msg.recv_timestamp)
      else w.book_lat;
}

-- From `book_pool_.book(msg.locate)` on.
unfoldable pub apply_message : ShardWorker → ItchMsg → Timestamp → Option ShardWorker
apply_message w msg after =
    let i = slab_index msg.locate in
    elim (handle (open_book w i) msg.type msg.body) [
      | ignored ↦ some w
      | book_after r ↦ r >>= λ b. some (publish_book (close_book w i b) msg b after)
    ]

-- `msg.type == MessageType::AddOrder || msg.type == MessageType::AddOrderMPID`
abbrev pub adds_order : MessageType → Bool
adds_order MessageType.add_order = true
adds_order MessageType.add_order_mpid = true
adds_order _ = false

-- The order messages of `dispatch`, when the session is open.
unfoldable pub dispatch_order : ShardWorker → ItchMsg → Timestamp → Option ShardWorker
dispatch_order w msg after =
    if w.book_active (slab_index msg.locate)
    then apply_message w msg after
    else if adds_order msg.type
    then apply_message (activate_book w msg.locate) msg after
    else some w

-- The case of a stock directory message.
unfoldable pub dispatch_directory : ShardWorker → SessionManager → ℕ → ShardWorker
dispatch_directory w sm loc = elim sm.state [
  | SessionState.open_session ↦ activate_book w loc
  | SessionState.pre_open ↦ if is_warmup_symbol sm loc then activate_book w loc else w
  | _ ↦ w
]

-- The case of a trading action, for the index of its book.
unfoldable pub act_on : ShardWorker → ℕ → Body → Option ShardWorker
act_on w i (Body.trading_action m) = some (close_book w i (on_trading_action (open_book w i) m))
act_on w i _ = none

unfoldable pub dispatch_action : ShardWorker → ItchMsg → Option ShardWorker
dispatch_action w msg =
    let i = slab_index msg.locate in if w.book_active i then act_on w i msg.body else some w

-- The case of the session reset.
unfoldable pub reset_shard : ShardWorker → ShardWorker
reset_shard w = record (clear_all_books w) { pool = Pool.reset w.pool; map = Map.reset w.map }

-- `msg.type == t`
abbrev pub is_type : ItchMsg → MessageType → Bool
is_type msg t = code_of msg.type == code_of t

-- `ShardWorker::dispatch`. `none` is a loop of the map that does not end.
unfoldable pub dispatch : ShardWorker → SessionManager → ItchMsg → Timestamp → Option ShardWorker
dispatch w sm msg after =
    if is_type msg MessageType.internal_session_reset
    then some (reset_shard w)
    else if is_type msg MessageType.stock_directory
    then some (dispatch_directory w sm msg.locate)
    else if is_type msg MessageType.stock_trading_action
    then dispatch_action w msg
    else if not (is_open_state sm.state)
    then some w
    else dispatch_order w msg after
