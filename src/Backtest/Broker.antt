-- ===== src/Backtest/Broker.antt =====
-- Order states and the matching at the open of a bar (src/backtest/broker.py).
pub mod Pricing
pub mod Execution
pub mod State
pub mod Market
pub mod Matching
pub mod Lifecycle
mod Tests
