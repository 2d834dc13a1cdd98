-- ===== src/Book/Published.antt =====
-- include/orderbook/bbo_publisher.hpp and src/orderbook/bbo_publisher.cpp: the best prices that are
-- published, by locate code. A slot stands for the value of its sequence lock between two stores.
use itch_feed_handler.Common.{ℕ, leb, ltb, if◌then◌else◌, update}
use itch_feed_handler.Book.Handlers.{BboSnapshot}

pub record BboPublisher : Type 0 where
  pub slots : ℕ → BboSnapshot
  pub capacity : ℕ

-- `BboSnapshot{}`
abbrev pub no_bbo : BboSnapshot
no_bbo = record { locate = 0; bid_price = 0; bid_qty = 0; ask_price = 0; ask_qty = 0; ts = 0 }

-- `BboPublisher::publish`, `BboPublisher::read` and `BboPublisher::reset`
unfoldable pub publish : BboPublisher → ℕ → BboSnapshot → BboPublisher
publish p loc bbo = if leb p.capacity loc then p else record p { slots = update p.slots loc bbo }

unfoldable pub read : BboPublisher → ℕ → BboSnapshot
read p loc = if leb p.capacity loc then no_bbo else p.slots loc

unfoldable pub reset : BboPublisher → BboPublisher
reset p = record p { slots = λ i. if ltb i p.capacity then no_bbo else p.slots i }
