-- ===== src/Book/Handlers/Replace.antt =====
-- Replacing an order: in place it keeps its place in the queue; the book stays ordered.
use itch_feed_handler.Common.{
  ℕ, ◌≤◌, ◌≡◌, ◌≢◌, inl, inr, arith, Option, some, Option-cases, Bool-cases, refl, sym, subst, ap,
  ℕ_discrete, dec_lt, ◌==◌, leb, ◌&&◌, true, update, update_self,
}
use itch_feed_handler.Types.{Price, Side, max_price_levels}
use itch_feed_handler.Message.{OrderReplace}
use itch_feed_handler.Book.Pool.{Order, alloc}
use itch_feed_handler.Book.Map.{find, map_empty}
use itch_feed_handler.Book.Map.Rounds.{HasRoom, find-insert_total}
use itch_feed_handler.Book.Map.Erase.{erase_total}
use itch_feed_handler.Book.Levels.{Levels, PriceLevel, find_level, insert_level}
use itch_feed_handler.Book.Levels.Find.{find_level_lem}
use itch_feed_handler.Book.Levels.Sorted.{IsSorted, insert_level-IsSorted}
use itch_feed_handler.Book.Handlers.{
  Level2Book, levels_of, set_levels, replace_in_place, place_replacement, on_order_replace,
}
use itch_feed_handler.Book.Handlers.Ordered.{
  IsOrdered, levels_of-IsSorted, set_levels-IsOrdered, update-IsSorted, place_order-IsOrdered,
  with_pool-IsOrdered,
}
use itch_feed_handler.Book.Handlers.Add.{
  ReturnsOrdered, map-set_levels, eq_true, eq_false, insert_full,
}
use itch_feed_handler.Book.Handlers.Remove.{FindsLevel, remove_order-IsOrdered}

-- An order has the same neighbours and level as before.
abbrev pub SamePlace : Order → Order → Type 0
SamePlace o o' =
    (o'.prev_idx ≡ o.prev_idx)
    × (o'.next_idx ≡ o.next_idx)
    × (o'.level_idx ≡ o.level_idx)
    × (o'.price ≡ o.price)

-- A level has the same price and the same queue as before.
abbrev pub SameQueue : PriceLevel → PriceLevel → Type 0
SameQueue l l' =
    (l'.price ≡ l.price)
    × (l'.head_order_idx ≡ l.head_order_idx)
    × (l'.tail_order_idx ≡ l.tail_order_idx)
    × (l'.order_count ≡ l.order_count)

replaced-SamePlace :
    (orders : ℕ → Order) (idx qty id : ℕ) (j : ℕ)
    → SamePlace (orders j) (update orders idx (record (orders idx) { qty = qty; id = id }) j)
replaced-SamePlace orders idx qty id j = elim (ℕ_discrete j idx) [
  | yes e ↦
      let place = ap (λ k. (orders k).prev_idx) e in
      let place' = ap (λ k. (orders k).next_idx) e in
      let level = ap (λ k. (orders k).level_idx) e in
      let price = ap (λ k. (orders k).price) e in ground arith
  | no h ↦ ground arith
]

replaced-SameQueue :
    (levels : ℕ → PriceLevel) (i total : ℕ) (j : ℕ)
    → SameQueue (levels j) (update levels i (record (levels i) { total_qty = total }) j)
replaced-SameQueue levels i total j = elim (ℕ_discrete j i) [
  | yes e ↦
      let price = ap (λ k. (levels k).price) e in
      let head = ap (λ k. (levels k).head_order_idx) e in
      let tail = ap (λ k. (levels k).tail_order_idx) e in
      let count = ap (λ k. (levels k).order_count) e in ground arith
  | no h ↦ ground arith
]

set_levels-SameQueue :
    (b : Level2Book) (side : Side) (ls : Levels)
    → ((j : ℕ) → SameQueue ((levels_of b side).levels j) (ls.levels j))
    → (j : ℕ)
    → SameQueue (b.bids.levels j) ((set_levels b side ls).bids.levels j)
      × SameQueue (b.asks.levels j) ((set_levels b side ls).asks.levels j)
unfolding set_levels levels_of
set_levels-SameQueue b Side.buy ls h j = (h j, (refl, refl, refl, refl))
set_levels-SameQueue b Side.sell ls h j = ((refl, refl, refl, refl), h j)
set_levels-SameQueue b (Side.other c) ls h j = ((refl, refl, refl, refl), h j)

replace_in_place_lem :
    (b : Level2Book) (r : OrderReplace) (idx : ℕ)
    → IsOrdered b
    → HasRoom b.map
    → (b' : Level2Book) × (replace_in_place b r idx ≡ some b')
      × IsOrdered b'
      × ((j : ℕ) → SamePlace (b.pool.orders j) (b'.pool.orders j))
      × ((j : ℕ)
          → SameQueue (b.bids.levels j) (b'.bids.levels j)
            × SameQueue (b.asks.levels j) (b'.asks.levels j))
      × ((b'.pool.orders idx).qty ≡ r.new_shares)
      × ((b'.pool.orders idx).id ≡ r.new_ref)
unfolding replace_in_place
replace_in_place_lem b r idx v room =
    let o = b.pool.orders idx in
    let ls = levels_of b o.side in
    let (erased, run, room') = erase_total b.map r.orig_ref room in
    let (m, run') = (find-insert_total erased.0 r.new_ref idx room').1 in
    let (sorted, fits) = levels_of-IsSorted b o.side v in
    let ordered =
      set_levels-IsOrdered b o.side _ v (update-IsSorted o.side ls o.level_idx _ sorted refl)
        fits in
    let self = update_self b.pool.orders idx (record o { qty = r.new_shares; id = r.new_ref }) in
    rw (replace_in_place, run, run')
      (
        _,
        refl,
        record {
          bids_sorted = ordered.bids_sorted;
          asks_sorted = ordered.asks_sorted;
          bids_fit = ordered.bids_fit;
          asks_fit = ordered.asks_fit;
        },
        replaced-SamePlace b.pool.orders idx r.new_shares r.new_ref,
        set_levels-SameQueue b o.side _ (replaced-SameQueue ls.levels o.level_idx _),
        ap (λ (x : Order). x.qty) self,
        ap (λ (x : Order). x.id) self,
      )

in_place_test : (a c : Price) (d e : ℕ) → a ≡ c → d ≤ e → ((a == c) && leb d e) ≡ true
in_place_test a c d e h k = ground arith

-- Replacing a known order by one with its price and no more shares keeps its time priority: no order
-- changes its neighbours, level or price, no level its price or the ends of its queue, and the slot
-- holds the new quantity under the new reference.
pub on_order_replace-keeps_place :
    (b : Level2Book) (r : OrderReplace) (idx : ℕ)
    → IsOrdered b
    → HasRoom b.map
    → find b.map r.orig_ref ≡ some idx
    → idx ≢ map_empty
    → r.new_price ≡ (b.pool.orders idx).price
    → r.new_shares ≤ (b.pool.orders idx).qty
    → (b' : Level2Book) × (on_order_replace b r ≡ some b')
      × IsOrdered b'
      × ((j : ℕ) → SamePlace (b.pool.orders j) (b'.pool.orders j))
      × ((j : ℕ)
          → SameQueue (b.bids.levels j) (b'.bids.levels j)
            × SameQueue (b.asks.levels j) (b'.asks.levels j))
      × ((b'.pool.orders idx).qty ≡ r.new_shares)
      × ((b'.pool.orders idx).id ≡ r.new_ref)
unfolding on_order_replace
on_order_replace-keeps_place b r idx v room found known price shares =
    rw (on_order_replace, found, eq_false _ _ known, in_place_test _ _ _ _ price shares)
      (replace_in_place_lem b r idx v room)

same_full :
    (drop_ctr : Option ℕ) (side : Side) (ls : Levels) (price : Price)
    → max_price_levels ≤ ls.count
    → (insert_level drop_ctr ls price side).1 ≡ ls
unfolding insert_level
same_full drop_ctr side ls price full = ground arith

-- A full array stays as it is.
full-IsSorted :
    (drop_ctr : Option ℕ) (side : Side) (ls : Levels) (price : Price)
    → max_price_levels ≤ ls.count
    → IsSorted side ls
    → IsSorted side (insert_level drop_ctr ls price side).1
      × ((insert_level drop_ctr ls price side).1.count ≡ ls.count)
full-IsSorted drop_ctr side ls price full sorted =
    rw (same_full drop_ctr side ls price full) (sorted, refl)

place_replacement-IsOrdered :
    (b : Level2Book) (r : OrderReplace) (side : Side)
    → IsOrdered b
    → HasRoom b.map
    → ReturnsOrdered (place_replacement b r side)
unfolding place_replacement
place_replacement-IsOrdered b r side v room = elim (Option-cases (alloc b.pool)) [
  | inl e ↦ rw (place_replacement, e) (b, refl, v)
  | inr (s, e) ↦
      let ls = levels_of b side in
      let (sorted, fits) = levels_of-IsSorted b side v in
      let room_of = λ (ls' : Levels). subst HasRoom (sym (map-set_levels b side ls')) room in
      elim (ℕ_discrete (find_level ls r.new_price) ls.count) [
        | no h ↦
            let ordered = set_levels-IsOrdered b side ls v sorted fits in
            let low = (find_level_lem ls r.new_price).0 in
            let below : find_level ls r.new_price ≢ max_price_levels = omega arith in
            rw (place_replacement, e, eq_false _ _ h, eq_false _ _ below)
              (place_order-IsOrdered _ s.0 r.new_ref r.new_price r.new_shares side _
                (with_pool-IsOrdered _ s.1 b.drop_ctr ordered) (room_of ls))
        | yes h ↦ elim (dec_lt ls.count max_price_levels) [
          | yes p ↦
              let (sorted', count, low, new, before, after, same) =
                insert_level-IsSorted b.drop_ctr side ls r.new_price sorted p h in
              let ordered = set_levels-IsOrdered b side _ v sorted' (omega arith) in
              let below : (insert_level b.drop_ctr ls r.new_price side).0 ≢ max_price_levels =
                omega arith in
              rw (place_replacement, e, eq_true _ _ h, eq_false _ _ below)
                (place_order-IsOrdered _ s.0 r.new_ref r.new_price r.new_shares side _
                  (with_pool-IsOrdered _ s.1 _ ordered) (room_of _))
          | no p ↦
              let full : max_price_levels ≤ ls.count = omega arith in
              let (sorted', count) = full-IsSorted b.drop_ctr side ls r.new_price full sorted in
              let ordered = set_levels-IsOrdered b side _ v sorted' (omega arith) in
              rw
                (
                  place_replacement,
                  e,
                  eq_true _ _ h,
                  eq_true _ _ (insert_full b.drop_ctr side ls r.new_price full),
                )
                (_, refl, with_pool-IsOrdered _ _ _ ordered)
        ]
      ]
]

-- Replacing an order of an ordered book whose map has an empty slot returns, in place or by a new
-- order, whether or not the map knows the order and the pool or the levels are exhausted, and the book
-- is ordered after it. Where the map knows the order, the book must have a level on its side.
pub on_order_replace-IsOrdered :
    (b : Level2Book) (r : OrderReplace)
    → IsOrdered b
    → HasRoom b.map
    → FindsLevel b r.orig_ref
    → ReturnsOrdered (on_order_replace b r)
unfolding on_order_replace
on_order_replace-IsOrdered b r v room finds =
    let (idx, found) = (find-insert_total b.map r.orig_ref 0 room).0 in
    let o = b.pool.orders idx in
    elim (ℕ_discrete idx map_empty) [
      | yes e ↦ rw (on_order_replace, found, eq_true _ _ e) (b, refl, v)
      | no h ↦ elim (Bool-cases ((r.new_price == o.price) && leb r.new_shares o.qty)) [
        | inl same ↦
            let done = replace_in_place_lem b r idx v room in
            rw (on_order_replace, found, eq_false _ _ h, same) (done.0, done.1, done.2)
        | inr other ↦
            let (b', run, ordered, room') =
              remove_order-IsOrdered b r.orig_ref idx v room (finds idx found h) in
            rw (on_order_replace, found, eq_false _ _ h, other, run)
              (place_replacement-IsOrdered b' r o.side ordered room')
      ]
    ]
