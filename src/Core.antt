-- ===== src/Core.antt =====
-- The value types of core/: an order, a candlestick, and the trust flag of a parsed line.
pub mod Order
pub mod OrderBook
pub mod Candlestick
pub mod AuthFlags
mod Tests
mod BookTests
