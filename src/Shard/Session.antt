-- ===== src/Shard/Session.antt =====
-- Books that are not active are empty, and a session reset leaves no other.
use itch_feed_handler.Common.{
  ℕ, ◌<◌, ◌≡◌, arith, refl, ap, sym, ◌∙◌, subst, true, false, some, update_self, Bool-cases, inl,
  inr, ℕ_discrete,
}
use mathlib.Core.Option.{some-injective}
use itch_feed_handler.Types.{MessageType, Timestamp, code_of}
use itch_feed_handler.Message.{ItchMsg, Body, TradingAction}
use itch_feed_handler.Book.Pool
use itch_feed_handler.Book.Map
use itch_feed_handler.Book.Handlers.{
  Level2Book, clear, cleared, on_trading_action, trading_status_of,
}
use itch_feed_handler.Lifecycle.Manager.{SessionManager}
use itch_feed_handler.Shard.Worker.{
  ShardWorker, slab_index, books_per_shard, clear_all_books, reset_shard, is_type, dispatch,
  dispatch_action, act_on, close_book, open_book,
}
use itch_feed_handler.Shard.Local.{IsLocal, off_before}
use itch_feed_handler.Shard.Gate.{dispatch-IsLocal}

-- A book with no level on either side.
abbrev pub IsEmpty : Level2Book → Type 0
IsEmpty b = (b.bids.count ≡ 0) × (b.asks.count ≡ 0)

abbrev pub IdleEmpty : ShardWorker → Type 0
IdleEmpty w = (i : ℕ) → i < books_per_shard → w.book_active i ≡ false → IsEmpty (w.slab i)

reset_shard_lem :
    (w : ShardWorker) (i : ℕ)
    → IdleEmpty w
    → i < books_per_shard
    → ((reset_shard w).book_active i ≡ false) × IsEmpty ((reset_shard w).slab i)
unfolding reset_shard clear_all_books clear cleared
reset_shard_lem w i v small = elim (Bool-cases (w.book_active i)) [
  | inl active ↦ ground arith
  | inr idle ↦ let empty = v i small idle in ground arith
]

IsLocal-IdleEmpty :
    (w w' : ShardWorker) (msg : ItchMsg) → IdleEmpty w → IsLocal w w' msg → IdleEmpty w'
IsLocal-IdleEmpty w w' msg v l i small idle = elim (ℕ_discrete i (slab_index msg.locate)) [
  | yes here ↦
      let off : w'.book_active (slab_index msg.locate) ≡ false =
        ap w'.book_active (sym here) ∙ idle in
      let before : w.book_active i ≡ false = ap w.book_active here ∙ off_before _ _ l.stays off in
      subst IsEmpty (sym (ap w'.slab here ∙ l.idle off ∙ ap w.slab (sym here))) (v i small before)
  | no other ↦ subst IsEmpty (sym (l.books i other)) (v i small (sym (l.active i other) ∙ idle))
]

dispatch_reset :
    (w : ShardWorker) (sm : SessionManager) (msg : ItchMsg) (after : Timestamp)
    → is_type msg MessageType.internal_session_reset ≡ true
    → dispatch w sm msg after ≡ some (reset_shard w)
unfolding dispatch
dispatch_reset w sm msg after reset = ground arith

-- If the books of a shard that are not active have no levels, this is so after every message that the
-- shard handles to its end, a session reset included.
pub dispatch-IdleEmpty :
    (w w' : ShardWorker) (sm : SessionManager) (msg : ItchMsg) (after : Timestamp)
    → IdleEmpty w
    → dispatch w sm msg after ≡ some w'
    → IdleEmpty w'
dispatch-IdleEmpty w w' sm msg after v e =
    elim (Bool-cases (is_type msg MessageType.internal_session_reset)) [
      | inl reset ↦
          subst IdleEmpty (some-injective _ _ (sym (dispatch_reset w sm msg after reset) ∙ e))
            (λ i small idle. (reset_shard_lem w i v small).1)
      | inr other ↦ IsLocal-IdleEmpty w w' msg v (dispatch-IsLocal w w' sm msg after other e)
    ]

-- A session reset leaves every book of the shard inactive and empty, and the pool and the map as
-- after their own reset.
pub dispatch-reset :
    (w : ShardWorker) (sm : SessionManager) (msg : ItchMsg) (after : Timestamp)
    → IdleEmpty w
    → msg.type ≡ MessageType.internal_session_reset
    → (w' : ShardWorker) × (dispatch w sm msg after ≡ some w')
      × ((i : ℕ) → i < books_per_shard → (w'.book_active i ≡ false) × IsEmpty (w'.slab i))
      × (w'.pool ≡ Pool.reset w.pool)
      × (w'.map ≡ Map.reset w.map)
unfolding dispatch reset_shard code_of
dispatch-reset w sm msg after v kind =
    (reset_shard w, ground arith, λ i h. reset_shard_lem w i v h, refl, refl)

-- The index of a book forgets the shard of its locate code. So a trading action that every shard gets
-- changes the status of another symbol's book in each shard where that book is active.
pub dispatch-action_shared :
    (w : ShardWorker) (sm : SessionManager) (msg : ItchMsg) (m : TradingAction) (after : Timestamp)
    (loc : ℕ)
    → msg.type ≡ MessageType.stock_trading_action
    → msg.body ≡ Body.trading_action m
    → slab_index loc ≡ slab_index msg.locate
    → w.book_active (slab_index loc) ≡ true
    → (w' : ShardWorker) × (dispatch w sm msg after ≡ some w')
      × ((w'.slab (slab_index loc)).status ≡ trading_status_of m.trading_state)
unfolding dispatch dispatch_action act_on code_of close_book on_trading_action
dispatch-action_shared w sm msg m after loc kind body same on =
    let i = slab_index msg.locate in
    let active : w.book_active i ≡ true = ap w.book_active (sym same) ∙ on in
    (
      close_book w i (on_trading_action (open_book w i) m),
      rw (dispatch, kind, dispatch_action, active, body) refl,
      rw same (ap (λ b. b.status) (update_self w.slab i (on_trading_action (open_book w i) m))),
    )
