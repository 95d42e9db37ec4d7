-- ===== src/Server.antt =====
-- TradingCore/InterServer/StreamingServer.cpp: `class StreamingServer`.
pub mod Render
pub mod Client
pub mod Lifecycle
pub mod Polling
pub mod History
pub mod Balance
pub mod Threads
