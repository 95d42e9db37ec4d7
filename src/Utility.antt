-- ===== src/Utility.antt =====
-- TradingCore/Utility: String.cpp and Convert.cpp.
pub mod SignDigit
pub mod Convert
pub mod JsonNumber
pub mod Directory
