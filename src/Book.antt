-- ===== src/Book.antt =====
-- src/orderbook/level2_book.cpp and include/orderbook/: the book of one symbol over the order pool
-- and the order map of its shard. The definitions are in the children.
pub mod Pool
pub mod Map
pub mod Levels
pub mod Fifo
pub mod Handlers
pub mod Published
pub mod Saved
pub mod Archive
