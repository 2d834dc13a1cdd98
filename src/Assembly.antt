-- ===== src/Assembly.antt =====
-- src/app/feed_handler.cpp: how the parts are configured, given their memory, wired together, started
-- and stopped.
pub mod Config
pub mod Limits
pub mod Memory
pub mod Accounts
pub mod Release
pub mod Startup
pub mod Restart
pub mod Threads
