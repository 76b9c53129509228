-- ===== src/Engine.antt =====
-- The engine of engine/: candles from orders, and indicators over candles.
pub mod CandlestickGenerator
pub mod SmaIndicator
pub mod RsiIndicator
pub mod MacdIndicator
pub mod BollingerBandsIndicator
mod Tests
pub mod IndicatorRegistry
pub mod LoopProcessor
pub mod Indicators
mod IndicatorTests
mod LoopTests
mod BandTests
