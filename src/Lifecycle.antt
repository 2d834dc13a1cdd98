-- ===== src/Lifecycle.antt =====
-- include/session/session_manager.hpp and src/session/session_manager.cpp: the trading session.
pub mod Manager
pub mod Watch
pub mod Events
