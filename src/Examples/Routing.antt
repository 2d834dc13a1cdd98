-- ===== src/Examples/Routing.antt =====
-- The theorems on the routing at a concrete directory and router.
use itch_feed_handler.Common.{ℕ, ◌<◌, ◌≡◌, ◌≢◌, true, false, if◌then◌else◌}
use itch_feed_handler.Types.{MessageType, num_shards}
use itch_feed_handler.Message.{ItchMsg, Body, Chars8}
use itch_feed_handler.Routing.Directory.{SymbolDirectory, shard_for_locate}
use itch_feed_handler.Routing.Router.{
  RouteResult, ShardRouter, is_admin_message, route, pushed_to, Delivered, Untouched, route_lem,
}

abbrev pub blank : Chars8
blank = record { c0 = 32; c1 = 32; c2 = 32; c3 = 32; c4 = 32; c5 = 32; c6 = 32; c7 = 32 }

abbrev another : ℕ
another = 14

abbrev pub directory : SymbolDirectory
directory = record {
  symbols = λ loc. record {
    ticker = blank;
    locate = 0;
    shard = 0;
    market_category = 0;
    round_lot_size = 100;
    financial_status = 0;
    is_active = false;
  };
  count = 0;
}

-- An order of the symbol with locate code 13 is deleted.
abbrev pub deletion : ItchMsg
deletion = record {
  type = MessageType.order_delete;
  locate = 13;
  timestamp = 5;
  recv_timestamp = 6;
  body = Body.order_delete 7;
}

abbrev pub router : ShardRouter
router = record {
  queues = λ s. record {
    write_pos = 0;
    cached_read_pos = 0;
    buffer = λ i. deletion;
    cached_write_pos = 0;
    read_pos = 0;
  };
  shard_queue_drops = λ s. 0;
  pressure_threshold = 200000;
}

route_lem_example :
    let (result, r') = route router deletion in
    let shard = shard_for_locate deletion.locate in
    (is_admin_message deletion.type ≡ false
      → (shard < num_shards)
        × Delivered router deletion r' shard
        × ((t : ℕ) → t ≢ shard → Untouched router r' t)
        × (result ≡ (
            if (pushed_to router deletion shard).1
            then RouteResult.ok
            else RouteResult.queue_full)))
    × (is_admin_message deletion.type ≡ true
        → (t : ℕ) → t < num_shards
        → Delivered router deletion r' t)
route_lem_example = route_lem router deletion
