-- ===== src/Book/Handlers/Ordered.antt =====
-- The book stays ordered: what an added order does to the levels, and what the best prices are.
use itch_feed_handler.Common.{
  ℕ, ◌≤◌, ◌<◌, ◌≡◌, ◌≢◌, arith, Option, some, refl, ap, ℕ_discrete, update,
}
use itch_feed_handler.Types.{Price, Side, max_price_levels}
use itch_feed_handler.Book.Pool.{OrderPool}
use itch_feed_handler.Book.Map.Rounds.{HasRoom, find-insert_total}
use itch_feed_handler.Book.Levels.{PriceLevel, Levels}
use itch_feed_handler.Book.Levels.Sorted.{IsSorted}
use itch_feed_handler.Book.Fifo.{link_order_tail}
use itch_feed_handler.Book.Handlers.{Level2Book, levels_of, set_levels, place_order, get_bbo}

-- Both sides are sorted, best price first, and fit in their arrays.
pub record IsOrdered (b : Level2Book) : Type 0 where
  pub bids_sorted : IsSorted Side.buy b.bids
  pub asks_sorted : IsSorted Side.sell b.asks
  pub bids_fit : b.bids.count ≤ max_price_levels
  pub asks_fit : b.asks.count ≤ max_price_levels

-- A level of the array has the price and the quantity.
abbrev pub Attained : Levels → ℕ → ℕ → Type 0
Attained ls price qty =
    (i : ℕ) × (i < ls.count) × ((ls.levels i).price ≡ price) × ((ls.levels i).total_qty ≡ qty)

-- The best bid and ask of an ordered book. On a side with no level, price and quantity are 0.
-- Otherwise they are the price and the quantity of a level of the side, and no level of the side has
-- a better price, a higher one for bids and a lower one for asks; the quantity is that of every level
-- with the price.
pub get_bbo-best :
    (b : Level2Book)
    → IsOrdered b
    → let bbo = get_bbo b in
      (b.bids.count ≡ 0 → (bbo.bid_price ≡ 0) × (bbo.bid_qty ≡ 0))
      × (b.asks.count ≡ 0 → (bbo.ask_price ≡ 0) × (bbo.ask_qty ≡ 0))
      × (b.bids.count ≢ 0 → Attained b.bids bbo.bid_price bbo.bid_qty)
      × (b.asks.count ≢ 0 → Attained b.asks bbo.ask_price bbo.ask_qty)
      × ((i : ℕ)
          → i < b.bids.count
          → ((b.bids.levels i).price ≤ bbo.bid_price)
            × ((b.bids.levels i).price ≡ bbo.bid_price → (b.bids.levels i).total_qty ≡ bbo.bid_qty))
      × ((i : ℕ)
          → i < b.asks.count
          → (bbo.ask_price ≤ (b.asks.levels i).price)
            × ((b.asks.levels i).price ≡ bbo.ask_price → (b.asks.levels i).total_qty ≡ bbo.ask_qty))
unfolding get_bbo
get_bbo-best b v = (
  ground arith,
  ground arith,
  λ some_level. (0, omega arith, ground arith, ground arith),
  λ some_level. (0, omega arith, ground arith, ground arith),
  λ i h. elim (ℕ_discrete i 0) [
    | yes z ↦
        let price = ap (λ k. (b.bids.levels k).price) z in
        let qty = ap (λ k. (b.bids.levels k).total_qty) z in ground arith
    | no z ↦ let lower = v.bids_sorted 0 i (omega arith) h in ground arith
  ],
  λ i h. elim (ℕ_discrete i 0) [
    | yes z ↦
        let price = ap (λ k. (b.asks.levels k).price) z in
        let qty = ap (λ k. (b.asks.levels k).total_qty) z in ground arith
    | no z ↦ let higher = v.asks_sorted 0 i (omega arith) h in ground arith
  ],
)

pub set_levels-IsOrdered :
    (b : Level2Book) (side : Side) (ls : Levels)
    → IsOrdered b
    → IsSorted side ls
    → ls.count ≤ max_price_levels
    → IsOrdered (set_levels b side ls)
unfolding set_levels
set_levels-IsOrdered b Side.buy ls v sorted fits = record {
  bids_sorted = sorted;
  asks_sorted = v.asks_sorted;
  bids_fit = fits;
  asks_fit = v.asks_fit;
}
set_levels-IsOrdered b Side.sell ls v sorted fits = record {
  bids_sorted = v.bids_sorted;
  asks_sorted = sorted;
  bids_fit = v.bids_fit;
  asks_fit = fits;
}
set_levels-IsOrdered b (Side.other c) ls v sorted fits = record {
  bids_sorted = v.bids_sorted;
  asks_sorted = sorted;
  bids_fit = v.bids_fit;
  asks_fit = fits;
}

pub levels_of-IsSorted :
    (b : Level2Book) (side : Side)
    → IsOrdered b
    → IsSorted side (levels_of b side) × ((levels_of b side).count ≤ max_price_levels)
unfolding levels_of
levels_of-IsSorted b Side.buy v = (v.bids_sorted, v.bids_fit)
levels_of-IsSorted b Side.sell v = (v.asks_sorted, v.asks_fit)
levels_of-IsSorted b (Side.other c) v = (v.asks_sorted, v.asks_fit)

updated_price :
    (levels : ℕ → PriceLevel) (i : ℕ) (lvl : PriceLevel) (j : ℕ)
    → lvl.price ≡ (levels i).price
    → (update levels i lvl j).price ≡ (levels j).price
updated_price levels i lvl j same = elim (ℕ_discrete j i) [
  | yes e ↦ let moved = ap (λ k. (levels k).price) e in ground arith
  | no h ↦ ground arith
]

-- Writing a level with the same price keeps the order.
pub update-IsSorted :
    (side : Side) (ls : Levels) (i : ℕ) (lvl : PriceLevel)
    → IsSorted side ls
    → lvl.price ≡ (ls.levels i).price
    → IsSorted side (record ls { levels = update ls.levels i lvl })
update-IsSorted side ls i lvl sorted same j k p q =
    rw (updated_price ls.levels i lvl j same, updated_price ls.levels i lvl k same) (sorted j k p q)

pub place_order-IsOrdered :
    (b : Level2Book) (idx ref : ℕ) (price : Price) (qty : ℕ) (side : Side) (lvl_idx : ℕ)
    → IsOrdered b
    → HasRoom b.map
    → (b' : Level2Book) × (place_order b idx ref price qty side lvl_idx ≡ some b') × IsOrdered b'
unfolding place_order link_order_tail
place_order-IsOrdered b idx ref price qty side lvl_idx v room =
    let (m, inserted) = (find-insert_total b.map ref idx room).1 in
    let (sorted, fits) = levels_of-IsSorted b side v in
    let ordered =
      set_levels-IsOrdered b side _ v
        (update-IsSorted side (levels_of b side) lvl_idx _ sorted refl) fits in
    rw inserted (
      _,
      refl,
      record {
        bids_sorted = ordered.bids_sorted;
        asks_sorted = ordered.asks_sorted;
        bids_fit = ordered.bids_fit;
        asks_fit = ordered.asks_fit;
      },
    )

-- The book after a slot was taken or the counter moved: the levels are those of the book.
pub with_pool-IsOrdered :
    (b : Level2Book) (pool : OrderPool) (drop_ctr : Option ℕ)
    → IsOrdered b
    → IsOrdered (record b { pool = pool; drop_ctr = drop_ctr })
with_pool-IsOrdered b pool drop_ctr v = record {
  bids_sorted = v.bids_sorted;
  asks_sorted = v.asks_sorted;
  bids_fit = v.bids_fit;
  asks_fit = v.asks_fit;
}
