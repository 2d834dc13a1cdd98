-- ===== src/Book/Handlers/Remove.antt =====
-- The book stays ordered when orders are executed, cancelled and deleted.
use itch_feed_handler.Common.{
  ℕ, ◌≡◌, ◌≢◌, inl, inr, arith, some, Bool-cases, refl, sym, subst, ap, ◌∙◌, ℕ_discrete, ◌==◌,
  update, update_self,
}
use itch_feed_handler.Types.{Side}
use itch_feed_handler.Message.{OrderExecuted, OrderExecutedPrice, OrderCancel}
use itch_feed_handler.Book.Pool.{Order, OrderPool}
use itch_feed_handler.Book.Map.{find, map_empty}
use itch_feed_handler.Book.Map.Rounds.{HasRoom, find-insert_total}
use itch_feed_handler.Book.Map.Erase.{erase_total}
use itch_feed_handler.Book.Fifo.{unlink_order}
use itch_feed_handler.Book.Levels.{Levels, remove_level}
use itch_feed_handler.Book.Levels.Sorted.{remove_level-IsSorted}
use itch_feed_handler.Book.Handlers.{
  Level2Book, levels_of, set_levels, remove_order, reduced, reduce_qty, on_order_delete,
  on_order_executed, on_order_executed_price, on_order_cancel,
}
use itch_feed_handler.Book.Handlers.Ordered.{
  IsOrdered, levels_of-IsSorted, set_levels-IsOrdered, update-IsSorted,
}
use itch_feed_handler.Book.Handlers.Add.{ReturnsOrdered, map-set_levels, eq_true, eq_false}

-- The side of the order at a pool index has a level.
abbrev pub HasLevel : Level2Book → ℕ → Type 0
HasLevel b idx = (levels_of b (b.pool.orders idx).side).count ≢ 0

-- As it is for an order that the map finds, in a book where no level was lost.
abbrev pub FindsLevel : Level2Book → ℕ → Type 0
FindsLevel b ref = (idx : ℕ) → find b.map ref ≡ some idx → idx ≢ map_empty → HasLevel b idx

pub remove_order-IsOrdered :
    (b : Level2Book) (ref idx : ℕ)
    → IsOrdered b
    → HasRoom b.map
    → HasLevel b idx
    → (b' : Level2Book) × (remove_order b ref idx ≡ some b') × IsOrdered b' × HasRoom b'.map
unfolding remove_order unlink_order
remove_order-IsOrdered b ref idx v room some_level =
    let o = b.pool.orders idx in
    let ls = levels_of b o.side in
    let (erased, run, room') = erase_total b.map ref room in
    let (sorted, fits) = levels_of-IsSorted b o.side v in
    let lvl = (unlink_order (ls.levels o.level_idx) b.pool.orders idx).0 in
    let unlinked = record ls { levels = update ls.levels o.level_idx lvl } in
    let still = update-IsSorted o.side ls o.level_idx lvl sorted refl in
    elim (Bool-cases (lvl.order_count == 0)) [
      | inr kept ↦
          let ordered = set_levels-IsOrdered b o.side unlinked v still fits in
          rw (remove_order, run, kept)
            (
              _,
              refl,
              record {
                bids_sorted = ordered.bids_sorted;
                asks_sorted = ordered.asks_sorted;
                bids_fit = ordered.bids_fit;
                asks_fit = ordered.asks_fit;
              },
              room',
            )
      | inl gone ↦
          let (sorted', count, before, after) =
            remove_level-IsSorted o.side unlinked o.level_idx still (omega arith) some_level in
          let ordered =
            set_levels-IsOrdered b o.side (remove_level unlinked o.level_idx) v sorted'
              (omega arith) in
          rw (remove_order, run, gone)
            (
              _,
              refl,
              record {
                bids_sorted = ordered.bids_sorted;
                asks_sorted = ordered.asks_sorted;
                bids_fit = ordered.bids_fit;
                asks_fit = ordered.asks_fit;
              },
              room',
            )
    ]

-- Deleting an order of an ordered book whose map has an empty slot returns, and the book is ordered
-- after it, whether the map knows the order or not. Where it does, the book must have a level on the
-- order's side.
pub on_order_delete-IsOrdered :
    (b : Level2Book) (ref : ℕ)
    → IsOrdered b
    → HasRoom b.map
    → FindsLevel b ref
    → ReturnsOrdered (on_order_delete b ref)
unfolding on_order_delete
on_order_delete-IsOrdered b ref v room finds =
    let (idx, found) = (find-insert_total b.map ref 0 room).0 in
    elim (ℕ_discrete idx map_empty) [
      | yes e ↦ rw (on_order_delete, found, eq_true _ _ e) (b, refl, v)
      | no h ↦
          let (b', run, ordered, room') =
            remove_order-IsOrdered b ref idx v room (finds idx found h) in
          rw (on_order_delete, found, eq_false _ _ h) (b', run, ordered)
    ]

-- The side of the order has as many levels after the reduction.
reduced-count :
    (b : Level2Book) (side : Side) (ls : Levels) (pool : OrderPool)
    → ls.count ≡ (levels_of b side).count
    → (levels_of (record (set_levels b side ls) { pool = pool }) side).count
      ≡ (levels_of b side).count
unfolding set_levels levels_of
reduced-count b Side.buy ls pool h = h
reduced-count b Side.sell ls pool h = h
reduced-count b (Side.other c) ls pool h = h

reduced-HasLevel :
    (b : Level2Book) (idx by_qty : ℕ) → HasLevel b idx → HasLevel (reduced b idx by_qty) idx
unfolding reduced
reduced-HasLevel b idx by_qty some_level e =
    let o = b.pool.orders idx in
    let side_kept : ((reduced b idx by_qty).pool.orders idx).side ≡ o.side =
      ap (λ (x : Order). x.side) (update_self b.pool.orders idx _) in
    some_level (
      sym (reduced-count b o.side _ _ refl)
      ∙ ap (λ s. (levels_of (reduced b idx by_qty) s).count) (sym side_kept)
      ∙ e)

reduced-IsOrdered :
    (b : Level2Book) (idx by_qty : ℕ) → IsOrdered b → IsOrdered (reduced b idx by_qty)
unfolding reduced
reduced-IsOrdered b idx by_qty v =
    let o = b.pool.orders idx in
    let ls = levels_of b o.side in
    let (sorted, fits) = levels_of-IsSorted b o.side v in
    let ordered =
      set_levels-IsOrdered b o.side _ v (update-IsSorted o.side ls o.level_idx _ sorted refl)
        fits in
    record {
      bids_sorted = ordered.bids_sorted;
      asks_sorted = ordered.asks_sorted;
      bids_fit = ordered.bids_fit;
      asks_fit = ordered.asks_fit;
    }

reduced-HasRoom :
    (b : Level2Book) (idx by_qty : ℕ) → HasRoom b.map → HasRoom (reduced b idx by_qty).map
unfolding reduced
reduced-HasRoom b idx by_qty room =
    subst HasRoom (sym (map-set_levels b (b.pool.orders idx).side _)) room

pub reduce_qty-IsOrdered :
    (b : Level2Book) (ref by_qty : ℕ)
    → IsOrdered b
    → HasRoom b.map
    → FindsLevel b ref
    → ReturnsOrdered (reduce_qty b ref by_qty)
unfolding reduce_qty
reduce_qty-IsOrdered b ref by_qty v room finds =
    let (idx, found) = (find-insert_total b.map ref 0 room).0 in
    let b' = reduced b idx by_qty in
    elim (ℕ_discrete idx map_empty) [
      | yes e ↦ rw (reduce_qty, found, eq_true _ _ e) (b, refl, v)
      | no h ↦ elim (Bool-cases ((b'.pool.orders idx).qty == 0)) [
        | inr kept ↦
            rw (reduce_qty, found, eq_false _ _ h, kept)
              (b', refl, reduced-IsOrdered b idx by_qty v)
        | inl gone ↦
            let (b'', run, ordered, room') =
              remove_order-IsOrdered b' ref idx (reduced-IsOrdered b idx by_qty v)
                (reduced-HasRoom b idx by_qty room)
                (reduced-HasLevel b idx by_qty (finds idx found h)) in
            rw (reduce_qty, found, eq_false _ _ h, gone) (b'', run, ordered)
      ]
    ]

-- Executing or cancelling part or all of an order of an ordered book whose map has an empty slot
-- returns, and the book is ordered after it, whether the map knows the order or not. Where it does,
-- the book must have a level on the order's side.
pub executed-cancelled-IsOrdered :
    (b : Level2Book) (e : OrderExecuted) (p : OrderExecutedPrice) (c : OrderCancel)
    → IsOrdered b
    → HasRoom b.map
    → FindsLevel b e.ref
    → FindsLevel b p.ref
    → FindsLevel b c.ref
    → ReturnsOrdered (on_order_executed b e)
      × ReturnsOrdered (on_order_executed_price b p)
      × ReturnsOrdered (on_order_cancel b c)
unfolding on_order_executed on_order_executed_price on_order_cancel
executed-cancelled-IsOrdered b e p c v room finds finds' finds'' = (
  reduce_qty-IsOrdered b e.ref e.executed_shares v room finds,
  reduce_qty-IsOrdered b p.ref p.executed_shares v room finds',
  reduce_qty-IsOrdered b c.ref c.cancelled_shares v room finds'',
)
