-- ===== src/Examples.antt =====
-- The theorems at concrete inputs, by the part of the program.
pub mod Archive
pub mod Book
pub mod Feed
pub mod Fifo
pub mod Latency
pub mod Locks
pub mod Merger
pub mod Packets
pub mod Recovery
pub mod Ring
pub mod Rings
pub mod Routing
pub mod Session
pub mod Shard
pub mod Sockets
pub mod Files
pub mod Assembly
