-- ===== src/Recovery.antt =====
-- src/recovery/retransmit_client.cpp and src/workers/recovery_thread.cpp: how missing packets are asked
-- for and brought back.
pub mod Stream
pub mod Request
pub mod Recover
pub mod Persist
