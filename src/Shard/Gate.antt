-- ===== src/Shard/Gate.antt =====
-- What a message can change in a shard: nothing outside the session, one book of its own, and at a
-- session reset all books.
use itch_feed_handler.Common.{
  ◌≡◌, arith, refl, sym, ◌∙◌, Bool, true, false, ◌&&◌, not, Option, none, some, ◌>>=◌, update_ne,
  Bool-cases, ◌⊎◌, inl, inr,
}
use mathlib.Core.Option.{some-ne-none}
use itch_feed_handler.Types.{MessageType, Timestamp}
use itch_feed_handler.Message.{ItchMsg, Body}
use itch_feed_handler.Book.Handlers.{Level2Book}
use itch_feed_handler.Lifecycle.Manager.{
  SessionManager, is_open_state, SessionState, is_warmup_symbol,
}
use itch_feed_handler.Shard.Worker.{
  ShardWorker, Handled, slab_index, open_book, close_book, activate_book, is_type, dispatch,
  dispatch_order, dispatch_directory, dispatch_action, act_on, apply_message, handle, adds_order,
}
use itch_feed_handler.Shard.Local.{
  IsLocal, IsLocal-result, IsLocal-refl, IsLocal-trans, close_book-IsLocal, activate_book-IsLocal,
  activate_book-active, on_and_off,
}

-- A message that is neither the session reset nor administrative.
abbrev pub is_other : ItchMsg → Bool
is_other msg =
    not (is_type msg MessageType.internal_session_reset)
    && not (is_type msg MessageType.stock_directory)
    && not (is_type msg MessageType.stock_trading_action)

-- Outside an open session an order message changes nothing.
pub dispatch-closed :
    (w : ShardWorker) (sm : SessionManager) (msg : ItchMsg) (after : Timestamp)
    → is_other msg ≡ true
    → is_open_state sm.state ≡ false
    → dispatch w sm msg after ≡ some w
unfolding dispatch
dispatch-closed w sm msg after other shut = ground arith

-- The cases of the `switch`, with the book that a handler leaves.
pub Handled-cases :
    (h : Handled) → (h ≡ Handled.ignored) ⊎ ((r : Option Level2Book) × (h ≡ Handled.book_after r))
Handled-cases Handled.ignored = inl refl
Handled-cases (Handled.book_after r) = inr (r, refl)

apply_message-IsLocal :
    (w w' : ShardWorker) (msg : ItchMsg) (after : Timestamp)
    → w.book_active (slab_index msg.locate) ≡ true
    → apply_message w msg after ≡ some w'
    → IsLocal w w' msg
unfolding apply_message
apply_message-IsLocal w w' msg after on e =
    elim (Handled-cases (handle (open_book w (slab_index msg.locate)) msg.type msg.body)) [
      | inl skipped ↦ IsLocal-result e (rw (apply_message, skipped) refl) (IsLocal-refl w msg)
      | inr (none, run) ↦ absurd (some-ne-none _ (sym e ∙ rw (apply_message, run, ◌>>=◌) refl))
      | inr (some b, run) ↦
          IsLocal-result e (rw (apply_message, run, ◌>>=◌) refl)
            (close_book-IsLocal w msg b after on)
    ]

pub dispatch_order-active :
    (w : ShardWorker) (msg : ItchMsg) (after : Timestamp)
    → w.book_active (slab_index msg.locate) ≡ true
    → dispatch_order w msg after ≡ apply_message w msg after
unfolding dispatch_order
dispatch_order-active w msg after active = ground arith

pub dispatch_order-adds :
    (w : ShardWorker) (msg : ItchMsg) (after : Timestamp)
    → w.book_active (slab_index msg.locate) ≡ false
    → adds_order msg.type ≡ true
    → dispatch_order w msg after ≡ apply_message (activate_book w msg.locate) msg after
unfolding dispatch_order
dispatch_order-adds w msg after idle adds = ground arith

dispatch_order-IsLocal :
    (w w' : ShardWorker) (msg : ItchMsg) (after : Timestamp)
    → dispatch_order w msg after ≡ some w'
    → IsLocal w w' msg
unfolding dispatch_order
dispatch_order-IsLocal w w' msg after e =
    elim (Bool-cases (w.book_active (slab_index msg.locate))) [
      | inl active ↦
          apply_message-IsLocal w w' msg after active
            (sym (dispatch_order-active w msg after active) ∙ e)
      | inr idle ↦ elim (Bool-cases (adds_order msg.type)) [
        | inl adds ↦
            IsLocal-trans w (activate_book w msg.locate) w' msg (activate_book-IsLocal w msg) (
              apply_message-IsLocal (activate_book w msg.locate) w' msg after
                (activate_book-active w msg.locate)
                (sym (dispatch_order-adds w msg after idle adds) ∙ e))
        | inr other ↦ IsLocal-result e (rw (dispatch_order, idle, other) refl) (IsLocal-refl w msg)
      ]
    ]

close_action-IsLocal :
    (w w' : ShardWorker) (msg : ItchMsg) (b : Body)
    → w.book_active (slab_index msg.locate) ≡ true
    → act_on w (slab_index msg.locate) b ≡ some w'
    → IsLocal w w' msg
unfolding act_on close_book
close_action-IsLocal w w' msg (Body.trading_action m) on e = IsLocal-result e refl (record {
  books = λ i h. update_ne w.slab (slab_index msg.locate) _ i h;
  active = λ i h. refl;
  prices = λ loc h. refl;
  stays = λ h. h;
  idle = λ h. absurd (on_and_off on h);
})
close_action-IsLocal w w' msg _ on e = absurd (some-ne-none _ (sym e))

dispatch_action-IsLocal :
    (w w' : ShardWorker) (msg : ItchMsg) → dispatch_action w msg ≡ some w' → IsLocal w w' msg
unfolding dispatch_action
dispatch_action-IsLocal w w' msg e = elim (Bool-cases (w.book_active (slab_index msg.locate))) [
  | inl active ↦
      close_action-IsLocal w w' msg msg.body active (sym (rw (dispatch_action, active) refl) ∙ e)
  | inr idle ↦ IsLocal-result e (rw (dispatch_action, idle) refl) (IsLocal-refl w msg)
]

dispatch_directory-IsLocal :
    (w : ShardWorker) (sm : SessionManager) (msg : ItchMsg) (s : SessionState)
    → sm.state ≡ s
    → IsLocal w (dispatch_directory w sm msg.locate) msg
unfolding dispatch_directory
dispatch_directory-IsLocal w sm msg SessionState.open_session e =
    rw (dispatch_directory, e) (activate_book-IsLocal w msg)
dispatch_directory-IsLocal w sm msg SessionState.pre_open e =
    elim (Bool-cases (is_warmup_symbol sm msg.locate)) [
      | inl warm ↦ rw (dispatch_directory, e, warm) (activate_book-IsLocal w msg)
      | inr cold ↦ rw (dispatch_directory, e, cold) (IsLocal-refl w msg)
    ]
dispatch_directory-IsLocal w sm msg SessionState.closed e =
    rw (dispatch_directory, e) (IsLocal-refl w msg)
dispatch_directory-IsLocal w sm msg SessionState.unknown e =
    rw (dispatch_directory, e) (IsLocal-refl w msg)

-- Every message but the session reset leaves the books at other indices, which of them are active,
-- and the prices of other symbols as they were.
pub dispatch-IsLocal :
    (w w' : ShardWorker) (sm : SessionManager) (msg : ItchMsg) (after : Timestamp)
    → is_type msg MessageType.internal_session_reset ≡ false
    → dispatch w sm msg after ≡ some w'
    → IsLocal w w' msg
unfolding dispatch
dispatch-IsLocal w w' sm msg after kind e =
    elim (Bool-cases (is_type msg MessageType.stock_directory)) [
      | inl directory ↦
          IsLocal-result e (rw (dispatch, kind, directory) refl)
            (dispatch_directory-IsLocal w sm msg sm.state refl)
      | inr not_directory ↦ elim (Bool-cases (is_type msg MessageType.stock_trading_action)) [
        | inl action ↦
            dispatch_action-IsLocal w w' msg
              (sym (rw (dispatch, kind, not_directory, action) refl) ∙ e)
        | inr not_action ↦ elim (Bool-cases (is_open_state sm.state)) [
          | inl opened ↦
              dispatch_order-IsLocal w w' msg after
                (sym (rw (dispatch, kind, not_directory, not_action, opened) refl) ∙ e)
          | inr shut ↦
              IsLocal-result e (rw (dispatch, kind, not_directory, not_action, shut) refl)
                (IsLocal-refl w msg)
        ]
      ]
    ]
