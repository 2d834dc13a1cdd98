-- ===== src/Book/Handlers/Add.antt =====
-- The book stays ordered when an order is added.
use itch_feed_handler.Common.{
  ℕ, ◌≤◌, ◌≡◌, ◌≢◌, inl, inr, arith, Option, some, Option-cases, refl, sym, subst, ℕ_discrete,
  dec_lt, ◌==◌, true, false,
}
use itch_feed_handler.Types.{Price, Side, max_price_levels}
use itch_feed_handler.Message.{AddOrder}
use itch_feed_handler.Book.Pool.{alloc}
use itch_feed_handler.Book.Map.Rounds.{HasRoom}
use itch_feed_handler.Book.Levels.{Levels, find_level, insert_level}
use itch_feed_handler.Book.Levels.Sorted.{insert_level-IsSorted}
use itch_feed_handler.Book.Handlers.{Level2Book, levels_of, set_levels, on_add_order}
use itch_feed_handler.Book.Handlers.Ordered.{
  IsOrdered, levels_of-IsSorted, set_levels-IsOrdered, place_order-IsOrdered, with_pool-IsOrdered,
}

-- A handler returns an ordered book.
abbrev pub ReturnsOrdered : Option Level2Book → Type 0
ReturnsOrdered r = (b' : Level2Book) × (r ≡ some b') × IsOrdered b'

pub eq_true : (a b : ℕ) → a ≡ b → (a == b) ≡ true
eq_true a b h = ground arith

pub eq_false : (a b : ℕ) → a ≢ b → (a == b) ≡ false
eq_false a b h = ground arith

pub map-set_levels :
    (b : Level2Book) (side : Side) (ls : Levels) → (set_levels b side ls).map ≡ b.map
unfolding set_levels
map-set_levels b Side.buy ls = refl
map-set_levels b Side.sell ls = refl
map-set_levels b (Side.other c) ls = refl

-- What `insert_level` returns on a full array.
pub insert_full :
    (drop_ctr : Option ℕ) (side : Side) (ls : Levels) (price : Price)
    → max_price_levels ≤ ls.count
    → (insert_level drop_ctr ls price side).0 ≡ max_price_levels
unfolding insert_level
insert_full drop_ctr side ls price full = ground arith

-- Adding an order to an ordered book whose map has an empty slot returns, whether or not the pool or
-- the levels are exhausted, and the book is ordered after it.
pub on_add_order-IsOrdered :
    (b : Level2Book) (a : AddOrder)
    → IsOrdered b
    → HasRoom b.map
    → ReturnsOrdered (on_add_order b a)
unfolding on_add_order
on_add_order-IsOrdered b a v room = elim (Option-cases (alloc b.pool)) [
  | inl e ↦ rw (on_add_order, e) (b, refl, v)
  | inr (r, e) ↦
      let ls = levels_of b a.side in
      let (sorted, fits) = levels_of-IsSorted b a.side v in
      elim (ℕ_discrete (find_level ls a.price) ls.count) [
        | no h ↦
            rw (on_add_order, e, eq_false _ _ h)
              (place_order-IsOrdered _ r.0 a.ref a.price a.shares a.side _
                (with_pool-IsOrdered b r.1 b.drop_ctr v) room)
        | yes h ↦ elim (dec_lt ls.count max_price_levels) [
          | yes p ↦
              let (sorted', count, low, new, before, after, same) =
                insert_level-IsSorted b.drop_ctr a.side ls a.price sorted p h in
              rw
                (
                  on_add_order,
                  e,
                  eq_true _ _ h,
                  eq_false (insert_level b.drop_ctr ls a.price a.side).0 max_price_levels
                      (omega arith),
                )
                (place_order-IsOrdered _ r.0 a.ref a.price a.shares a.side _
                  (with_pool-IsOrdered _ r.1 _
                    (set_levels-IsOrdered b a.side _ v sorted' (omega arith)))
                  (subst HasRoom (sym (map-set_levels b a.side _)) room))
          | no p ↦
              rw
                (
                  on_add_order,
                  e,
                  eq_true _ _ h,
                  eq_true _ _ (insert_full b.drop_ctr a.side ls a.price (omega arith)),
                )
                (_, refl, with_pool-IsOrdered b _ _ v)
        ]
      ]
]
