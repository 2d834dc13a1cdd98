-- ===== src/Shard.antt =====
-- src/workers/shard_worker.cpp and src/orderbook/order_book_pool.cpp: the books of one shard.
pub mod Worker
pub mod Local
pub mod Gate
pub mod Session
pub mod Feeding
