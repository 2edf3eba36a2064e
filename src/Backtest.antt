-- ===== src/Backtest.antt =====
-- The backtest of A-share strategies (src/backtest/).
pub mod Domain
pub mod Config
pub mod Clock
pub mod Schedule
pub mod TradingRules
pub mod Orders
pub mod Portfolio
pub mod Broker
pub mod CorporateActions
pub mod Engine
