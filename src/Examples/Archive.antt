-- ===== src/Examples/Archive.antt =====
-- The round trip of snapshots at two books, with levels stored as five numbers.
use itch_feed_handler.Common.{ℕ, ◌<◌, ◌≡◌, arith, refl, true, [], ◌∷◌, Memory, if◌then◌else◌, ◌==◌}
use itch_feed_handler.Book.Levels.{PriceLevel}
use itch_feed_handler.Book.Handlers.{Level2Book}
use itch_feed_handler.Book.Saved.{Copying, level_size}
use itch_feed_handler.Book.Archive.{
  AllSame, write_snapshot, read_snapshot, read_snapshot-write_snapshot,
}
use itch_feed_handler.Examples.Book.{book, bids}

abbrev stored : PriceLevel → Memory
stored l i =
    if i == 0
    then l.price
    else if i == 8
    then l.total_qty
    else if i == 16
    then l.order_count
    else if i == 20
    then l.head_order_idx
    else if i == 24
    then l.tail_order_idx
    else 0

abbrev fetched : Memory → PriceLevel
fetched m = record {
  price = m 0;
  total_qty = m 8;
  order_count = m 16;
  head_order_idx = m 20;
  tail_order_idx = m 24;
}

pub fetched-stored :
    (l : PriceLevel) (m : Memory) → ((i : ℕ) → i < level_size → m i ≡ stored l i) → fetched m ≡ l
fetched-stored l m h =
    rw
      (
        h 0 (omega arith),
        h 8 (omega arith),
        h 16 (omega arith),
        h 20 (omega arith),
        h 24 (omega arith),
      )
      refl

abbrev pub copying : Copying PriceLevel level_size
copying = record { store = stored; fetch = fetched; fetch-store = fetched-stored }

abbrev pub crossed : Level2Book
crossed = record book { locate = 300; asks = bids }

read_snapshot-write_snapshot_example :
    let (back, done) =
      read_snapshot copying
        (λ i. 1)
        (crossed ∷ crossed ∷ [])
        (write_snapshot copying (λ i. 2) (book ∷ crossed ∷ [])) in
    (done ≡ true) × AllSame copying (book ∷ crossed ∷ []) back
read_snapshot-write_snapshot_example =
    read_snapshot-write_snapshot copying (λ i. 2) (λ i. 1) (book ∷ crossed ∷ [])
      (crossed ∷ crossed ∷ [])
      (
        (omega arith, omega arith, omega arith, omega arith),
        ((omega arith, omega arith, omega arith, omega arith), tt),
      )
      refl
