-- ===== src/Examples/Shard.antt =====
-- The theorems on a shard at a worker with no active book.
use itch_feed_handler.Common.{ℕ, ◌≡◌, arith, refl, Bool, false, some, ◌==◌}
use itch_feed_handler.Types.{code_of, MessageType, Side}
use itch_feed_handler.Message.{ItchMsg, Body, TradingAction}
use itch_feed_handler.Book.Levels.{empty_level}
use itch_feed_handler.Book.Handlers.{Level2Book, TradingStatus, trading_status_of}
use itch_feed_handler.Book.Published.{no_bbo}
use itch_feed_handler.Lifecycle.Manager.{SessionManager, SessionState}
use itch_feed_handler.Shard.Worker.{ShardWorker, slab_index, dispatch}
use itch_feed_handler.Shard.Local.{IsLocal}
use itch_feed_handler.Shard.Gate.{dispatch-IsLocal}
use itch_feed_handler.Shard.Session.{IdleEmpty, dispatch-IdleEmpty, dispatch-action_shared}
use itch_feed_handler.Shard.Feeding.{AreOrdered, Feeds, dispatch-Feeds}
use itch_feed_handler.Examples.Book.{book, pool, map, map-HasRoom}
use itch_feed_handler.Examples.Session.{manager}
use itch_feed_handler.Examples.Routing.{blank}

abbrev empty_book : Level2Book
empty_book = record book {
  locate = 0;
  status = TradingStatus.unknown;
  bids = record { levels = λ i. empty_level 0; count = 0 };
  asks = record { levels = λ i. empty_level 0; count = 0 };
}

abbrev worker : (ℕ → Bool) → ShardWorker
worker active = record {
  shard_id = 5;
  slab = λ i. empty_book;
  book_active = active;
  pool = pool;
  map = map;
  price_level_drops = 0;
  order_replaces_inplace = 0;
  bbo_pub = record { slots = λ i. no_bbo; capacity = 100 };
  book_lat = record { buckets = λ i. 0; count = 0; max = 0 };
}

abbrev none_active : ℕ → Bool
none_active i = false

worker-AreOrdered : AreOrdered (worker none_active)
worker-AreOrdered i = record {
  bids_sorted = λ i j h k. absurd (omega arith);
  asks_sorted = λ i j h k. absurd (omega arith);
  bids_fit = omega arith;
  asks_fit = omega arith;
}

abbrev open_session : SessionManager
open_session = record manager { state = SessionState.open_session }

-- An order to buy for the symbol with locate code 13.
abbrev addition : ItchMsg
addition = record {
  type = MessageType.add_order;
  locate = 13;
  timestamp = 5;
  recv_timestamp = 6;
  body = Body.add_order (record {
    ref = 9;
    side = Side.buy;
    price = 300;
    shares = 4;
    stock = blank;
    attribution = record { c0 = 0; c1 = 0; c2 = 0; c3 = 0 };
  });
}

abbrev halt : TradingAction
halt = record {
  stock = blank;
  trading_state = b'H';
  reason = record { c0 = 32; c1 = 32; c2 = 32; c3 = 32 };
}

abbrev halting : ItchMsg
halting = record addition {
  type = MessageType.stock_trading_action;
  body = Body.trading_action halt;
}

-- The book at index 1 is that of locate code 13, which is of shard 5; code 8 is of shard 0.
abbrev one_active : ℕ → Bool
one_active i = i == 1

dispatch-action_shared_example :
    (w' : ShardWorker) × (dispatch
        (worker one_active)
        open_session
        (record halting { locate = 8 })
        8
      ≡ some w')
    × ((w'.slab (slab_index 13)).status ≡ trading_status_of b'H')
dispatch-action_shared_example =
    dispatch-action_shared (worker one_active) open_session (record halting { locate = 8 }) halt 8
      13 refl refl refl refl

-- The worker after the order.
abbrev fed : Feeds addition (dispatch (worker none_active) open_session addition 8)
fed =
    dispatch-Feeds (worker none_active) open_session addition 8 worker-AreOrdered map-HasRoom tt
      refl refl refl refl (omega arith)

worker-IdleEmpty : IdleEmpty (worker none_active)
worker-IdleEmpty i h idle = (refl, refl)

dispatch-IsLocal_example : IsLocal (worker none_active) fed.0 addition
unfolding code_of
dispatch-IsLocal_example =
    dispatch-IsLocal (worker none_active) fed.0 open_session addition 8 refl fed.1

dispatch-IdleEmpty_example : IdleEmpty fed.0
dispatch-IdleEmpty_example =
    dispatch-IdleEmpty (worker none_active) fed.0 open_session addition 8 worker-IdleEmpty fed.1
