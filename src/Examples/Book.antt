-- ===== src/Examples/Book.antt =====
-- The theorems on the book at concrete books.
use itch_feed_handler.Common.{
  ℕ, ◌-◌, ◌^◌, ◌≤◌, ◌<◌, ◌≡◌, ◌≢◌, arith, none, some, refl, update, true, List, [], ◌∷◌, ◌==◌,
  if◌then◌else◌,
}
use Prim.Native.Nat.{◌∣◌}
use itch_feed_handler.Types.{Side}
use itch_feed_handler.Message.{
  AddOrder, OrderExecuted, OrderExecutedPrice, OrderCancel, OrderReplace,
}
use itch_feed_handler.Book.Pool.{Order, OrderPool, invalid_idx, alloc}
use itch_feed_handler.Book.Pool.Slots.{IsValid, IsFree, alloc-IsValid}
use itch_feed_handler.Book.Map.{
  OrderMap, empty_entry, find, reset, hash_slot, find_from as slot_from,
}
use itch_feed_handler.Book.Map.Rounds.{HasRoom}
use itch_feed_handler.Book.Map.Calls.{
  Call, insert_call, find_call, erase_call, AreKeys, run, run_map,
}
use itch_feed_handler.Book.Map.History.{run-reset}
use itch_feed_handler.Book.Levels.{Levels, empty_level}
use itch_feed_handler.Book.Levels.Sorted.{IsSorted}
use itch_feed_handler.Book.Handlers.{
  Level2Book, TradingStatus, levels_of, on_add_order, on_order_delete, on_order_executed,
  on_order_executed_price, on_order_cancel, on_order_replace, get_bbo,
}
use itch_feed_handler.Book.Handlers.Ordered.{IsOrdered, Attained, get_bbo-best}
use itch_feed_handler.Book.Handlers.Add.{ReturnsOrdered, on_add_order-IsOrdered}
use itch_feed_handler.Book.Handlers.Remove.{
  FindsLevel, on_order_delete-IsOrdered, executed-cancelled-IsOrdered,
}
use itch_feed_handler.Book.Handlers.Replace.{
  SamePlace, SameQueue, on_order_replace-keeps_place, on_order_replace-IsOrdered,
}

-- One order, reference 7, 10 shares to buy at 200.
abbrev order : ℕ → Order
order i = record {
  id = 7;
  price = 200;
  qty = 10;
  prev_idx = invalid_idx;
  next_idx = invalid_idx;
  level_idx = 0;
  side = Side.buy;
}

abbrev pub pool : OrderPool
pool = record {
  orders = order;
  capacity = 4;
  freelist = λ i. 3 - i;
  freelist_top = 3;
  allocated = 1;
}

pool-IsValid : IsValid pool
pool-IsValid = record {
  small = omega arith;
  fits = omega arith;
  counted = refl;
  in_pool = λ i h. omega arith;
  once = λ i j h k e. omega arith;
}

abbrev pub map : OrderMap
map = record {
  table = λ i. if i == 1 then record { key = 7; value = 0; probe_dist = 0 } else empty_entry;
  bits = 2;
  size = 1;
}

pub map-HasRoom : HasRoom map
map-HasRoom = (∣ (2 ^ 30, refl) ∣₁, (0, omega arith, refl))

-- Two bid levels, at 200 and 100, and no ask level.
abbrev pub bids : Levels
bids = record {
  levels = λ i. record {
    price = if i == 0 then 200 else 100;
    total_qty = 10;
    order_count = 1;
    head_order_idx = 0;
    tail_order_idx = 0;
  };
  count = 2;
}

bids-IsSorted : IsSorted Side.buy bids
bids-IsSorted i j h k = ground arith

abbrev pub book : Level2Book
book = record {
  locate = 1;
  status = TradingStatus.trading;
  pool = pool;
  map = map;
  drop_ctr = some 0;
  inplace_ctr = some 0;
  bids = bids;
  asks = record { levels = λ i. empty_level 0; count = 0 };
}

pub book-IsOrdered : IsOrdered book
book-IsOrdered = record {
  bids_sorted = bids-IsSorted;
  asks_sorted = λ i j h k. absurd (omega arith);
  bids_fit = omega arith;
  asks_fit = omega arith;
}

-- The pool after slot 1 was taken.
abbrev taken : OrderPool
taken = record pool {
  orders = update order 1 (record (order 1) { prev_idx = invalid_idx; next_idx = invalid_idx });
  freelist_top = 2;
  allocated = 2;
}

abbrev added : AddOrder
added = record {
  ref = 8;
  side = Side.buy;
  price = 150;
  shares = 5;
  stock = record { c0 = 65; c1 = 32; c2 = 32; c3 = 32; c4 = 32; c5 = 32; c6 = 32; c7 = 32 };
  attribution = record { c0 = 0; c1 = 0; c2 = 0; c3 = 0 };
}

abbrev executed : OrderExecuted
executed = record { ref = 7; executed_shares = 10; match_number = 1 }

abbrev executed_price : OrderExecutedPrice
executed_price = record {
  ref = 7;
  executed_shares = 4;
  match_number = 1;
  price = 200;
  printable = true;
}

abbrev cancelled : OrderCancel
cancelled = record { ref = 7; cancelled_shares = 3 }

abbrev replaced : OrderReplace
replaced = record { orig_ref = 7; new_ref = 9; new_shares = 6; new_price = 200 }

find_7 : find map 7 ≡ some 0
unfolding find hash_slot slot_from
find_7 = refl

book-FindsLevel : (ref : ℕ) → FindsLevel book ref
unfolding levels_of
book-FindsLevel ref idx found known = ground arith

abbrev calls : List Call
calls = insert_call 7 2 ∷ insert_call 9 3 ∷ erase_call 7 ∷ find_call 7 ∷ find_call 9 ∷ []

calls-AreKeys : AreKeys calls
calls-AreKeys = (
  λ e. absurd (omega arith),
  (
    λ e. absurd (omega arith),
    (λ e. absurd (omega arith), (λ e. absurd (omega arith), (λ e. absurd (omega arith), tt))),
  ),
)

-- The theorems.

run-reset_example : run (reset map) calls ≡ some (run_map (λ k. none) calls)
run-reset_example =
    run-reset map calls (∣ (2 ^ 30, refl) ∣₁) calls-AreKeys (omega arith) (omega arith)

alloc-IsValid_example : IsValid taken × (1 < pool.capacity) × IsFree pool 1 × (¬ (IsFree taken 1))
unfolding alloc
alloc-IsValid_example = alloc-IsValid pool taken 1 pool-IsValid refl

get_bbo-best_example :
    let bbo = get_bbo book in
    (book.bids.count ≡ 0 → (bbo.bid_price ≡ 0) × (bbo.bid_qty ≡ 0))
    × (book.asks.count ≡ 0 → (bbo.ask_price ≡ 0) × (bbo.ask_qty ≡ 0))
    × (book.bids.count ≢ 0 → Attained book.bids bbo.bid_price bbo.bid_qty)
    × (book.asks.count ≢ 0 → Attained book.asks bbo.ask_price bbo.ask_qty)
    × ((i : ℕ)
        → i < book.bids.count
        → ((book.bids.levels i).price ≤ bbo.bid_price)
          × ((book.bids.levels i).price ≡ bbo.bid_price
              → (book.bids.levels i).total_qty ≡ bbo.bid_qty))
    × ((i : ℕ)
        → i < book.asks.count
        → (bbo.ask_price ≤ (book.asks.levels i).price)
          × ((book.asks.levels i).price ≡ bbo.ask_price
              → (book.asks.levels i).total_qty ≡ bbo.ask_qty))
get_bbo-best_example = get_bbo-best book book-IsOrdered

on_add_order-IsOrdered_example : ReturnsOrdered (on_add_order book added)
on_add_order-IsOrdered_example = on_add_order-IsOrdered book added book-IsOrdered map-HasRoom

on_order_delete-IsOrdered_example : ReturnsOrdered (on_order_delete book 7)
on_order_delete-IsOrdered_example =
    on_order_delete-IsOrdered book 7 book-IsOrdered map-HasRoom (book-FindsLevel 7)

executed-cancelled-IsOrdered_example :
    ReturnsOrdered (on_order_executed book executed)
    × ReturnsOrdered (on_order_executed_price book executed_price)
    × ReturnsOrdered (on_order_cancel book cancelled)
executed-cancelled-IsOrdered_example =
    executed-cancelled-IsOrdered book executed executed_price cancelled book-IsOrdered map-HasRoom
      (book-FindsLevel 7) (book-FindsLevel 7) (book-FindsLevel 7)

on_order_replace-IsOrdered_example : ReturnsOrdered (on_order_replace book replaced)
on_order_replace-IsOrdered_example =
    on_order_replace-IsOrdered book replaced book-IsOrdered map-HasRoom (book-FindsLevel 7)

on_order_replace-keeps_place_example :
    (b' : Level2Book) × (on_order_replace book replaced ≡ some b')
    × IsOrdered b'
    × ((j : ℕ) → SamePlace (book.pool.orders j) (b'.pool.orders j))
    × ((j : ℕ)
        → SameQueue (book.bids.levels j) (b'.bids.levels j)
          × SameQueue (book.asks.levels j) (b'.asks.levels j))
    × ((b'.pool.orders 0).qty ≡ replaced.new_shares)
    × ((b'.pool.orders 0).id ≡ replaced.new_ref)
on_order_replace-keeps_place_example =
    on_order_replace-keeps_place book replaced 0 book-IsOrdered map-HasRoom find_7 (omega arith)
      refl (omega arith)
