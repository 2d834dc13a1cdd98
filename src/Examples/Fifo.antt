-- ===== src/Examples/Fifo.antt =====
-- The theorems on the queue of a price level at a level of one order.
use itch_feed_handler.Common.{ℕ, ◌+◌, ◌-◌, ◌%◌, ◌^◌, ◌≡◌, arith, refl}
use itch_feed_handler.Types.{Side}
use itch_feed_handler.Book.Pool.{Order, invalid_idx}
use itch_feed_handler.Book.Levels.{PriceLevel}
use itch_feed_handler.Book.Fifo.{link_order_tail, unlink_order}
use itch_feed_handler.Book.Fifo.Queue.{IsQueue, put_last, link_order_tail-IsQueue}
use itch_feed_handler.Book.Fifo.Unlink.{without, unlink_order-IsQueue}

abbrev orders : ℕ → Order
orders i = record {
  id = i;
  price = 200;
  qty = 10;
  prev_idx = invalid_idx;
  next_idx = invalid_idx;
  level_idx = 0;
  side = Side.buy;
}

abbrev level : PriceLevel
level = record {
  price = 200;
  total_qty = 10;
  order_count = 1;
  head_order_idx = 3;
  tail_order_idx = 3;
}

-- Slot 3 alone.
abbrev queue : ℕ → ℕ
queue i = 3

level-IsQueue : IsQueue level orders queue 1
level-IsQueue = record {
  counted = refl;
  small = omega arith;
  valid = λ i h. omega arith;
  once = λ i j h k e. omega arith;
  head = refl;
  tail = refl;
  next = λ i h. ground arith;
  prev = λ i h. ground arith;
}

link_order_tail-IsQueue_example :
    let (lvl', orders') = link_order_tail level orders 2 in
    IsQueue lvl' orders' (put_last queue 1 2) (1 + 1)
    × (lvl'.total_qty ≡ (level.total_qty + (orders 2).qty) % 2 ^ 32)
link_order_tail-IsQueue_example =
    link_order_tail-IsQueue level orders queue 1 2 level-IsQueue (omega arith) (omega arith)
      (λ i h. omega arith)

unlink_order-IsQueue_example :
    let (lvl', orders') = unlink_order level orders (queue 0) in
    IsQueue lvl' orders' (without queue 0) (1 - 1)
    × (lvl'.total_qty ≡ (level.total_qty + 2 ^ 32 - (orders (queue 0)).qty) % 2 ^ 32)
unlink_order-IsQueue_example =
    unlink_order-IsQueue level orders queue 1 0 level-IsQueue (omega arith)
