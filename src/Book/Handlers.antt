-- ===== src/Book/Handlers.antt =====
-- src/orderbook/level2_book.cpp, lines 27 to 41 and 144 to 370, and include/orderbook/level2_book.hpp:
-- the handlers of the messages of one symbol. The pool and the map are those of the shard, and part
-- of the state. `none` is a loop of the map that does not end. The log lines are left out.
pub mod Ordered
pub mod Add
pub mod Remove
pub mod Replace
use itch_feed_handler.Common.{
  ℕ, ◌+◌, ◌-◌, ◌%◌, ◌^◌, Bool, true, false, ◌&&◌, ◌||◌, Option, none, some, ◌==◌, ltb, leb,
  if◌then◌else◌, ◌>>=◌, update,
}
use mathlib.Core.Option
use itch_feed_handler.Types.{Price, Side, is_buy, max_price_levels}
use itch_feed_handler.Message.{
  AddOrder, OrderExecuted, OrderExecutedPrice, OrderCancel, OrderReplace, TradingAction,
}
use itch_feed_handler.Book.Pool.{Order, OrderPool, invalid_idx, alloc, free}
use itch_feed_handler.Book.Map.{OrderMap, map_empty, find, insert, erase}
use itch_feed_handler.Book.Levels.{
  PriceLevel, Levels, empty_level, find_level, insert_level, remove_level,
}
use itch_feed_handler.Book.Fifo.{link_order_tail, unlink_order}

pub data TradingStatus : Type 0 where
  unknown halted paused quotation trading : TradingStatus
  other : ℕ → TradingStatus

-- `static_cast<TradingStatus>(c)`
unfoldable pub trading_status_of : ℕ → TradingStatus
trading_status_of c =
    if c == 0
    then TradingStatus.unknown
    else if c == b'H'
    then TradingStatus.halted
    else if c == b'P'
    then TradingStatus.paused
    else if c == b'Q'
    then TradingStatus.quotation
    else if c == b'T'
    then TradingStatus.trading
    else TradingStatus.other c

-- A counter is `none` for a null pointer.
pub record Level2Book : Type 0 where
  pub locate : ℕ
  pub status : TradingStatus
  pub pool : OrderPool
  pub map : OrderMap
  pub drop_ctr : Option ℕ
  pub inplace_ctr : Option ℕ
  pub bids : Levels
  pub asks : Levels

-- `(side == Side::Buy) ? bid_levels_ : ask_levels_`, with the count
unfoldable pub levels_of : Level2Book → Side → Levels
levels_of b side = if is_buy side then b.bids else b.asks

unfoldable pub set_levels : Level2Book → Side → Levels → Level2Book
set_levels b side ls = if is_buy side then record b { bids = ls } else record b { asks = ls }

-- The array of 256 levels as the constructor leaves it.
unfoldable pub cleared : Levels → Levels
cleared ls = record {
  levels = λ i. if ltb i max_price_levels then empty_level 0 else ls.levels i;
  count = 0;
}

-- `Level2Book::clear`
unfoldable pub clear : Level2Book → Level2Book
clear b = record b { bids = cleared b.bids; asks = cleared b.asks; status = TradingStatus.halted }

-- Lines 169 to 177, and 335 to 342: the order is written, linked at the tail of its level and
-- entered in the map.
unfoldable pub place_order : Level2Book → ℕ → ℕ → Price → ℕ → Side → ℕ → Option Level2Book
place_order b idx ref price qty side lvl_idx =
    let ls = levels_of b side in
    let order = record (b.pool.orders idx) {
      id = ref;
      price = price;
      qty = qty;
      level_idx = lvl_idx;
      side = side;
    } in
    let (lvl, orders) = link_order_tail (ls.levels lvl_idx) (update b.pool.orders idx order) idx in
    insert b.map ref idx >>= λ map.
    some (record (set_levels b side (record ls { levels = update ls.levels lvl_idx lvl })) {
      pool = record b.pool { orders = orders };
      map = map;
    })

-- `Level2Book::on_add_order`
unfoldable pub on_add_order : Level2Book → AddOrder → Option Level2Book
on_add_order b a = elim (alloc b.pool) [
  | none ↦ some b
  | some (idx, pool) ↦
      let ls = levels_of b a.side in
      let found = find_level ls a.price in
      let (new, ls', drop_ctr) = insert_level b.drop_ctr ls a.price a.side in
      if found == ls.count
      then (if new == max_price_levels
          then some (record b { pool = free pool idx; drop_ctr = drop_ctr })
          else place_order (record (set_levels b a.side ls') { pool = pool; drop_ctr = drop_ctr })
              idx a.ref a.price a.shares a.side new)
      else place_order (record b { pool = pool }) idx a.ref a.price a.shares a.side found
]

-- Lines 245 to 250, and 200 to 204 and 312 to 317: the order leaves its level, an empty level is
-- removed, and the map entry and the slot are given back.
unfoldable pub remove_order : Level2Book → ℕ → ℕ → Option Level2Book
remove_order b ref idx =
    let o = b.pool.orders idx in
    let ls = levels_of b o.side in
    let (lvl, orders) = unlink_order (ls.levels o.level_idx) b.pool.orders idx in
    let unlinked = record ls { levels = update ls.levels o.level_idx lvl } in
    let ls' = if lvl.order_count == 0 then remove_level unlinked o.level_idx else unlinked in
    erase b.map ref >>= λ erased. some (record (set_levels b o.side ls') {
      pool = free (record b.pool { orders = orders }) idx;
      map = erased.0;
    })

-- Lines 190 to 196: the quantity is taken off the order and its level.
unfoldable pub reduced : Level2Book → ℕ → ℕ → Level2Book
reduced b idx by_qty =
    let o = b.pool.orders idx in
    let ls = levels_of b o.side in
    let lvl = ls.levels o.level_idx in
    record (set_levels b o.side (record ls {
      levels =
          update ls.levels o.level_idx
            (record lvl { total_qty = (lvl.total_qty + 2 ^ 32 - by_qty) % 2 ^ 32 });
    })) {
      pool = record b.pool {
        orders = update b.pool.orders idx (record o { qty = (o.qty + 2 ^ 32 - by_qty) % 2 ^ 32 });
      };
    }

-- `Level2Book::reduce_qty`
unfoldable pub reduce_qty : Level2Book → ℕ → ℕ → Option Level2Book
reduce_qty b ref by_qty = find b.map ref >>= λ idx.
    let b' = reduced b idx by_qty in
    if idx == map_empty
    then some b
    else if (b'.pool.orders idx).qty == 0
    then remove_order b' ref idx
    else some b'

-- `Level2Book::on_order_executed`
unfoldable pub on_order_executed : Level2Book → OrderExecuted → Option Level2Book
on_order_executed b m = reduce_qty b m.ref m.executed_shares

-- `Level2Book::on_order_executed_price`
unfoldable pub on_order_executed_price : Level2Book → OrderExecutedPrice → Option Level2Book
on_order_executed_price b m = reduce_qty b m.ref m.executed_shares

-- `Level2Book::on_order_cancel`
unfoldable pub on_order_cancel : Level2Book → OrderCancel → Option Level2Book
on_order_cancel b m = reduce_qty b m.ref m.cancelled_shares

-- `Level2Book::on_order_delete`
unfoldable pub on_order_delete : Level2Book → ℕ → Option Level2Book
on_order_delete b ref =
    find b.map ref >>= λ idx. if idx == map_empty then some b else remove_order b ref idx

-- Lines 295 to 306: the order keeps its place in the queue.
unfoldable pub replace_in_place : Level2Book → OrderReplace → ℕ → Option Level2Book
replace_in_place b r idx =
    let o = b.pool.orders idx in
    let ls = levels_of b o.side in
    let lvl = ls.levels o.level_idx in
    let lowered = (lvl.total_qty + 2 ^ 32 - o.qty) % 2 ^ 32 in
    erase b.map r.orig_ref >>= λ erased. insert erased.0 r.new_ref idx >>= λ map.
    some
      (record (set_levels b o.side (record ls {
        levels =
            update ls.levels o.level_idx
              (record lvl { total_qty = (lowered + r.new_shares) % 2 ^ 32 });
      })) {
        pool = record b.pool {
          orders = update b.pool.orders idx (record o { qty = r.new_shares; id = r.new_ref });
        };
        map = map;
        inplace_ctr = Option.map (λ n. (n + 1) % 2 ^ 64) b.inplace_ctr;
      })

-- Lines 319 to 342: a new order in place of one that was removed.
unfoldable pub place_replacement : Level2Book → OrderReplace → Side → Option Level2Book
place_replacement b r side = elim (alloc b.pool) [
  | none ↦ some b
  | some (idx, pool) ↦
      let ls = levels_of b side in
      let found = find_level ls r.new_price in
      let (new, inserted, drops) = insert_level b.drop_ctr ls r.new_price side in
      let (lvl_idx, ls', drop_ctr) =
        if◌then◌else◌ {A = ℕ × Levels × Option ℕ} (found == ls.count) (new, inserted, drops)
          (found, ls, b.drop_ctr) in
      if lvl_idx == max_price_levels
      then some (record (set_levels b side ls') { pool = free pool idx; drop_ctr = drop_ctr })
      else place_order (record (set_levels b side ls') { pool = pool; drop_ctr = drop_ctr }) idx
          r.new_ref r.new_price r.new_shares side lvl_idx
]

-- `Level2Book::on_order_replace`
unfoldable pub on_order_replace : Level2Book → OrderReplace → Option Level2Book
on_order_replace b r = find b.map r.orig_ref >>= λ idx.
    let o = b.pool.orders idx in
    if idx == map_empty
    then some b
    else if (r.new_price == o.price) && leb r.new_shares o.qty
    then replace_in_place b r idx
    else remove_order b r.orig_ref idx >>= λ b'. place_replacement b' r o.side

-- `Level2Book::on_trading_action`
unfoldable pub on_trading_action : Level2Book → TradingAction → Level2Book
on_trading_action b m = record b { status = trading_status_of m.trading_state }

pub record BboSnapshot : Type 0 where
  pub locate : ℕ
  pub bid_price : Price
  pub bid_qty : ℕ
  pub ask_price : Price
  pub ask_qty : ℕ
  pub ts : ℕ

-- `Level2Book::get_bbo`
unfoldable pub get_bbo : Level2Book → BboSnapshot
get_bbo b = record {
  locate = b.locate;
  bid_price = if b.bids.count == 0 then 0 else (b.bids.levels 0).price;
  bid_qty = if b.bids.count == 0 then 0 else (b.bids.levels 0).total_qty;
  ask_price = if b.asks.count == 0 then 0 else (b.asks.levels 0).price;
  ask_qty = if b.asks.count == 0 then 0 else (b.asks.levels 0).total_qty;
  ts = 0;
}

-- `Level2Book::is_full`
unfoldable pub is_full : Level2Book → Bool
is_full b = leb max_price_levels b.bids.count || leb max_price_levels b.asks.count

-- `Level2Book::bid_depth` and `ask_depth`, which return a byte.
unfoldable pub bid_depth : Level2Book → ℕ
bid_depth b = b.bids.count % 2 ^ 8

unfoldable pub ask_depth : Level2Book → ℕ
ask_depth b = b.asks.count % 2 ^ 8
