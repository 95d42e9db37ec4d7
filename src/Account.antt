-- ===== src/Account.antt =====
-- TradingCore/Trade/Account.cpp: `class Account`.
pub mod Page
pub mod Numbers
pub mod Fields
pub mod PrevClose
pub mod Item
pub mod Holdings
pub mod Trades
pub mod Show
