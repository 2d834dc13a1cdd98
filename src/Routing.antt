-- ===== src/Routing.antt =====
-- src/routing: which shard gets a message. The definitions are in the children.
pub mod Directory
pub mod Router
