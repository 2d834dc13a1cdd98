-- ===== src/Book/Fifo.antt =====
-- src/orderbook/level2_book.cpp, lines 111 to 142: the queue of a price level, a list doubly linked
-- through pool indices. The level is the one of the array, the orders are the pool's.
pub mod Queue
pub mod Unlink
use itch_feed_handler.Common.{ℕ, ◌+◌, ◌-◌, ◌%◌, ◌^◌, ◌==◌, if◌then◌else◌, update}
use itch_feed_handler.Book.Pool.{Order, invalid_idx}
use itch_feed_handler.Book.Levels.{PriceLevel}

-- `Level2Book::link_order_tail`
unfoldable pub link_order_tail : PriceLevel → (ℕ → Order) → ℕ → PriceLevel × (ℕ → Order)
link_order_tail lvl orders idx =
    let linked =
      update orders idx
        (record (orders idx) { prev_idx = lvl.tail_order_idx; next_idx = invalid_idx }) in
    let orders' =
      if lvl.tail_order_idx == invalid_idx
      then linked
      else update linked lvl.tail_order_idx
          (record (linked lvl.tail_order_idx) { next_idx = idx }) in
    (
      record lvl {
        head_order_idx = if lvl.tail_order_idx == invalid_idx then idx else lvl.head_order_idx;
        tail_order_idx = idx;
        total_qty = (lvl.total_qty + (orders' idx).qty) % 2 ^ 32;
        order_count = (lvl.order_count + 1) % 2 ^ 32;
      },
      orders',
    )

-- `Level2Book::unlink_order`
unfoldable pub unlink_order : PriceLevel → (ℕ → Order) → ℕ → PriceLevel × (ℕ → Order)
unlink_order lvl orders idx =
    let o = orders idx in
    let orders' =
      if o.prev_idx == invalid_idx
      then orders
      else update orders o.prev_idx (record (orders o.prev_idx) { next_idx = o.next_idx }) in
    let o' = orders' idx in
    let orders'' =
      if o'.next_idx == invalid_idx
      then orders'
      else update orders' o'.next_idx (record (orders' o'.next_idx) { prev_idx = o'.prev_idx }) in
    (
      record lvl {
        head_order_idx = if o.prev_idx == invalid_idx then o.next_idx else lvl.head_order_idx;
        tail_order_idx = if o'.next_idx == invalid_idx then o'.prev_idx else lvl.tail_order_idx;
        total_qty = (lvl.total_qty + 2 ^ 32 - (orders'' idx).qty) % 2 ^ 32;
        order_count = (lvl.order_count + 2 ^ 32 - 1) % 2 ^ 32;
      },
      orders'',
    )
