-- ===== src/Snapshots.antt =====
-- src/recovery/book_snapshot.cpp: the files of the snapshots, and the pointers to the latest ones.
pub mod Names
pub mod Files
pub mod Latest
