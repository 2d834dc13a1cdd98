-- ===== src/Merger.antt =====
-- include/workers/feed_merger.hpp and src/workers/feed_merger.cpp: one stream from the primary and
-- the secondary feed.
pub mod Window
pub mod Seen
pub mod Once
pub mod Feeds
pub mod Rounds
pub mod Failover
