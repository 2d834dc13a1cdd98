-- ===== src/Book/Levels.antt =====
-- src/orderbook/level2_book.cpp, lines 47 to 109, and include/orderbook/price_level.hpp: the array
-- of price levels of one side of a book. An array has `max_price_levels` places.
pub mod Find
pub mod Sorted
use itch_feed_handler.Common.{
  ℕ, zero, suc, ◌+◌, ◌-◌, ◌%◌, ◌^◌, Bool, true, false, ◌&&◌, ◌||◌, not, Option, none, some, ◌==◌,
  ltb, leb, if◌then◌else◌, update,
}
use mathlib.Core.Option
use itch_feed_handler.Types.{Price, Side, is_buy, max_price_levels}
use itch_feed_handler.Book.Pool.{invalid_idx}

pub record PriceLevel : Type 0 where
  pub price : Price
  pub total_qty : ℕ
  pub order_count : ℕ
  pub head_order_idx : ℕ
  pub tail_order_idx : ℕ

-- A level without orders, as `memset` and the two assignments after it leave it.
abbrev pub empty_level : Price → PriceLevel
empty_level price = record {
  price = price;
  total_qty = 0;
  order_count = 0;
  head_order_idx = invalid_idx;
  tail_order_idx = invalid_idx;
}

-- `bid_levels_` with `bid_count_`, or `ask_levels_` with `ask_count_`
pub record Levels : Type 0 where
  pub levels : ℕ → PriceLevel
  pub count : ℕ

-- The loop of `find_level` from place i on, with n places left.
unfoldable pub find_from : (ℕ → PriceLevel) → Price → ℕ → ℕ → ℕ
find_from levels price zero i = i
find_from levels price (suc n) i = elim ((levels i).price == price) [
  | true ↦ i
  | false ↦ find_from levels price n (i + 1)
]

-- `Level2Book::find_level`
unfoldable pub find_level : Levels → Price → ℕ
find_level ls price = find_from ls.levels price ls.count 0

-- The test of the two loops of `insert_level`: the level's price is better than the new one.
unfoldable pub outranks : Side → Price → Price → Bool
outranks side old price = if is_buy side then ltb price old else ltb old price

-- The loop of `insert_level` that finds the place, from `pos` on, with n places left.
unfoldable pub position_from : (ℕ → PriceLevel) → Side → Price → ℕ → ℕ → ℕ
position_from levels side price zero pos = pos
position_from levels side price (suc n) pos = elim (outranks side (levels pos).price price) [
  | true ↦ position_from levels side price n (pos + 1)
  | false ↦ pos
]

-- The array after `memmove` has made room at `pos` and the new level is written there.
unfoldable pub put_level : Levels → ℕ → PriceLevel → ℕ → PriceLevel
put_level ls pos level j =
    if ltb j pos
    then ls.levels j
    else if j == pos
    then level
    else if leb j ls.count
    then ls.levels (j - 1)
    else ls.levels j

-- `Level2Book::insert_level`: the index, the levels and the drop counter, `none` for a null pointer.
unfoldable pub insert_level : Option ℕ → Levels → Price → Side → ℕ × Levels × Option ℕ
insert_level drop_ctr ls price side =
    let pos = position_from ls.levels side price ls.count 0 in
    if leb max_price_levels ls.count
    then (max_price_levels, ls, Option.map (λ n. (n + 1) % 2 ^ 64) drop_ctr)
    else (
      pos,
      record { levels = put_level ls pos (empty_level price); count = ls.count + 1 },
      drop_ctr,
    )

-- The array after the `memmove` of `remove_level`.
unfoldable pub close_gap : Levels → ℕ → ℕ → PriceLevel
close_gap ls idx j = if leb idx j && ltb (j + 1) ls.count then ls.levels (j + 1) else ls.levels j

-- `Level2Book::remove_level`. With a count of 0 the source clears the place in front of the array,
-- which is none of this array's.
unfoldable pub remove_level : Levels → ℕ → Levels
remove_level ls idx = record {
  levels =
      if ls.count == 0
      then close_gap ls idx
      else update (close_gap ls idx) (ls.count - 1) (empty_level 0);
  count = (ls.count + 2 ^ 16 - 1) % 2 ^ 16;
}
