-- ===== src/Shard/Feeding.antt =====
-- Order messages in an open session: the books stay ordered, and the best prices are published.
use itch_feed_handler.Common.{
  ℕ, ◌<◌, ◌≡◌, arith, refl, ap, sym, ◌∙◌, subst, Bool, true, false, ◌||◌, Option, some, ◌==◌, ◌>>=◌,
  update, update_self, update_ne, Bool-cases, inl, inr, ℕ_discrete,
}
use itch_feed_handler.Types.{MessageType, Timestamp, code_of}
use itch_feed_handler.Message.{ItchMsg, Body}
use itch_feed_handler.Book.Map.Rounds.{HasRoom}
use itch_feed_handler.Book.Handlers.{
  Level2Book, on_order_executed, on_order_executed_price, on_order_cancel,
}
use itch_feed_handler.Book.Handlers.Ordered.{IsOrdered}
use itch_feed_handler.Book.Handlers.Add.{on_add_order-IsOrdered}
use itch_feed_handler.Book.Handlers.Remove.{
  FindsLevel, on_order_delete-IsOrdered, reduce_qty-IsOrdered,
}
use itch_feed_handler.Book.Handlers.Replace.{on_order_replace-IsOrdered}
use itch_feed_handler.Lifecycle.Manager.{SessionManager, is_open_state}
use itch_feed_handler.Shard.Worker.{
  ShardWorker, Handled, slab_index, open_book, close_book, activate_book, dispatch, dispatch_order,
  apply_message, publish_book, handle, adds_order,
}
use itch_feed_handler.Shard.Local.{IsPublished, close_book-IsPublished}
use itch_feed_handler.Shard.Gate.{dispatch_order-adds, dispatch_order-active}

-- The union member that a type of order message stands for.
abbrev pub fits : MessageType → Body → Bool
fits MessageType.add_order (Body.add_order m) = true
fits MessageType.add_order_mpid (Body.add_order m) = true
fits MessageType.order_executed (Body.order_executed m) = true
fits MessageType.order_executed_price (Body.order_executed_price m) = true
fits MessageType.order_cancel (Body.order_cancel m) = true
fits MessageType.order_delete (Body.order_delete ref) = true
fits MessageType.order_replace (Body.order_replace m) = true
fits MessageType.add_order _ = false
fits MessageType.add_order_mpid _ = false
fits MessageType.order_executed _ = false
fits MessageType.order_executed_price _ = false
fits MessageType.order_cancel _ = false
fits MessageType.order_delete _ = false
fits MessageType.order_replace _ = false
fits _ _ = true

abbrev pub is_order_type : MessageType → Bool
is_order_type MessageType.add_order = true
is_order_type MessageType.add_order_mpid = true
is_order_type MessageType.order_executed = true
is_order_type MessageType.order_executed_price = true
is_order_type MessageType.order_cancel = true
is_order_type MessageType.order_delete = true
is_order_type MessageType.order_replace = true
is_order_type _ = false

-- An order that the map finds for the message has a level on its side of the book.
abbrev pub Finds : Level2Book → Body → Type 0
Finds b (Body.order_executed m) = FindsLevel b m.ref
Finds b (Body.order_executed_price m) = FindsLevel b m.ref
Finds b (Body.order_cancel m) = FindsLevel b m.ref
Finds b (Body.order_delete ref) = FindsLevel b ref
Finds b (Body.order_replace m) = FindsLevel b m.orig_ref
Finds b _ = Unit {0}

-- Every handler of an order message returns an ordered book.
handle-IsOrdered :
    (b : Level2Book) (t : MessageType) (body : Body)
    → IsOrdered b
    → HasRoom b.map
    → Finds b body
    → fits t body ≡ true
    → is_order_type t ≡ true
    → (b' : Level2Book) × (handle b t body ≡ Handled.book_after (some b')) × IsOrdered b'
unfolding handle on_order_executed on_order_executed_price on_order_cancel
handle-IsOrdered b MessageType.add_order (Body.add_order m) v room f e o =
    let (b', run, v') = on_add_order-IsOrdered b m v room in (b', ap Handled.book_after run, v')
handle-IsOrdered b MessageType.add_order_mpid (Body.add_order m) v room f e o =
    let (b', run, v') = on_add_order-IsOrdered b m v room in (b', ap Handled.book_after run, v')
handle-IsOrdered b MessageType.order_executed (Body.order_executed m) v room f e o =
    let (b', run, v') = reduce_qty-IsOrdered b m.ref m.executed_shares v room f in
    (b', ap Handled.book_after run, v')
handle-IsOrdered b MessageType.order_executed_price (Body.order_executed_price m) v room f e o =
    let (b', run, v') = reduce_qty-IsOrdered b m.ref m.executed_shares v room f in
    (b', ap Handled.book_after run, v')
handle-IsOrdered b MessageType.order_cancel (Body.order_cancel m) v room f e o =
    let (b', run, v') = reduce_qty-IsOrdered b m.ref m.cancelled_shares v room f in
    (b', ap Handled.book_after run, v')
handle-IsOrdered b MessageType.order_delete (Body.order_delete ref) v room f e o =
    let (b', run, v') = on_order_delete-IsOrdered b ref v room f in
    (b', ap Handled.book_after run, v')
handle-IsOrdered b MessageType.order_replace (Body.order_replace m) v room f e o =
    let (b', run, v') = on_order_replace-IsOrdered b m v room f in
    (b', ap Handled.book_after run, v')
handle-IsOrdered b _ _ v room f e o = absurd (ground arith)

abbrev pub AreOrdered : ShardWorker → Type 0
AreOrdered w = (i : ℕ) → IsOrdered (w.slab i)

update-AreOrdered :
    (slab : ℕ → Level2Book) (i : ℕ) (b : Level2Book)
    → ((k : ℕ) → IsOrdered (slab k))
    → IsOrdered b
    → (k : ℕ) → IsOrdered (update slab i b k)
update-AreOrdered slab i b v vb k = elim (ℕ_discrete k i) [
  | yes here ↦ subst IsOrdered (sym (ap (update slab i b) here ∙ update_self slab i b)) vb
  | no other ↦ subst IsOrdered (sym (update_ne slab i b k other)) (v k)
]

adds-Finds :
    (b : Level2Book) (t : MessageType) (body : Body)
    → adds_order t ≡ true
    → fits t body ≡ true
    → Finds b body
adds-Finds b MessageType.add_order (Body.add_order m) a e = tt
adds-Finds b MessageType.add_order_mpid (Body.add_order m) a e = tt
adds-Finds b _ _ a e = absurd (ground arith)

adds-is_order_type : (t : MessageType) → adds_order t ≡ true → is_order_type t ≡ true
adds-is_order_type MessageType.add_order a = refl
adds-is_order_type MessageType.add_order_mpid a = refl
adds-is_order_type _ a = absurd (ground arith)

open_book-IsOrdered : (w : ShardWorker) (i : ℕ) → IsOrdered (w.slab i) → IsOrdered (open_book w i)
unfolding open_book
open_book-IsOrdered w i v = record {
  bids_sorted = v.bids_sorted;
  asks_sorted = v.asks_sorted;
  bids_fit = v.bids_fit;
  asks_fit = v.asks_fit;
}

activate_book-AreOrdered :
    (w : ShardWorker) (loc : ℕ) → AreOrdered w → AreOrdered (activate_book w loc)
unfolding activate_book
activate_book-AreOrdered w loc v = elim (Bool-cases (w.book_active (slab_index loc))) [
  | inl active ↦ rw (activate_book, active) v
  | inr idle ↦
      let b = w.slab (slab_index loc) in
      let vb = v (slab_index loc) in
      rw (activate_book, idle)
        (update-AreOrdered w.slab (slab_index loc) _ v (record {
          bids_sorted = vb.bids_sorted;
          asks_sorted = vb.asks_sorted;
          bids_fit = vb.bids_fit;
          asks_fit = vb.asks_fit;
        }))
]

activate_book-map : (w : ShardWorker) (loc : ℕ) → (activate_book w loc).map ≡ w.map
unfolding activate_book
activate_book-map w loc = ground arith

activate_book-capacity : (w : ShardWorker) (loc : ℕ) → (activate_book w loc).bbo_pub ≡ w.bbo_pub
unfolding activate_book
activate_book-capacity w loc = ground arith

order_type_codes :
    (t : MessageType)
    → is_order_type t ≡ true
    → ((code_of t == code_of MessageType.internal_session_reset) ≡ false)
      × ((code_of t == code_of MessageType.stock_directory) ≡ false)
      × ((code_of t == code_of MessageType.stock_trading_action) ≡ false)
unfolding code_of
order_type_codes MessageType.add_order o = (refl, refl, refl)
order_type_codes MessageType.add_order_mpid o = (refl, refl, refl)
order_type_codes MessageType.order_executed o = (refl, refl, refl)
order_type_codes MessageType.order_executed_price o = (refl, refl, refl)
order_type_codes MessageType.order_cancel o = (refl, refl, refl)
order_type_codes MessageType.order_delete o = (refl, refl, refl)
order_type_codes MessageType.order_replace o = (refl, refl, refl)
order_type_codes _ o = absurd (ground arith)

-- The cases of `dispatch` before those of the orders do not apply.
dispatch-opened :
    (w : ShardWorker) (sm : SessionManager) (msg : ItchMsg) (after : Timestamp)
    → is_order_type msg.type ≡ true
    → is_open_state sm.state ≡ true
    → dispatch w sm msg after ≡ dispatch_order w msg after
unfolding dispatch
dispatch-opened w sm msg after order opened =
    let codes = order_type_codes msg.type order in
    rw (dispatch, codes.0, codes.1, codes.2, opened) refl

-- What an order message does to a shard.
abbrev pub Feeds : ItchMsg → Option ShardWorker → Type 0
Feeds msg r = (w' : ShardWorker) × (r ≡ some w') × AreOrdered w' × IsPublished w' msg

apply_message-Feeds :
    (w : ShardWorker) (msg : ItchMsg) (after : Timestamp)
    → AreOrdered w
    → HasRoom w.map
    → Finds (open_book w (slab_index msg.locate)) msg.body
    → fits msg.type msg.body ≡ true
    → is_order_type msg.type ≡ true
    → msg.locate < w.bbo_pub.capacity
    → Feeds msg (apply_message w msg after)
unfolding apply_message open_book
apply_message-Feeds w msg after v room finds fit order small =
    let i = slab_index msg.locate in
    let (b', run, v') =
      handle-IsOrdered (open_book w i) msg.type msg.body (open_book-IsOrdered w i (v i)) room finds
        fit order in
    (
      publish_book (close_book w i b') msg b' after,
      rw (apply_message, run, ◌>>=◌) refl,
      unfold publish_book in unfold close_book in update-AreOrdered w.slab i b' v v',
      close_book-IsPublished w msg b' after small,
    )

pub dispatch-Feeds :
    (w : ShardWorker) (sm : SessionManager) (msg : ItchMsg) (after : Timestamp)
    → AreOrdered w
    → HasRoom w.map
    → Finds (open_book w (slab_index msg.locate)) msg.body
    → fits msg.type msg.body ≡ true
    → is_order_type msg.type ≡ true
    → is_open_state sm.state ≡ true
    → (w.book_active (slab_index msg.locate) || adds_order msg.type) ≡ true
    → msg.locate < w.bbo_pub.capacity
    → Feeds msg (dispatch w sm msg after)
dispatch-Feeds w sm msg after v room finds fit order opened takes small =
    rw (dispatch-opened w sm msg after order opened)
      (elim (Bool-cases (w.book_active (slab_index msg.locate))) [
        | inl active ↦
            rw (dispatch_order-active w msg after active)
              (apply_message-Feeds w msg after v room finds fit order small)
        | inr idle ↦
            let adds : adds_order msg.type ≡ true = ground arith in
            let w' = activate_book w msg.locate in
            rw (dispatch_order-adds w msg after idle adds) (
              apply_message-Feeds w' msg after (activate_book-AreOrdered w msg.locate v)
                (subst HasRoom (sym (activate_book-map w msg.locate)) room)
                (adds-Finds _ msg.type msg.body adds fit) fit order
                (rw (activate_book-capacity w msg.locate) small))
      ])
