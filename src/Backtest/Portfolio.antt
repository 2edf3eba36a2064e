-- ===== src/Backtest/Portfolio.antt =====
-- The cash account, its positions and their valuation (src/backtest/portfolio.py).
pub mod State
pub mod Trading
pub mod Dividends
pub mod Invariant
pub mod Effects
pub mod Rights
pub mod Sessions
mod Tests
mod SessionTests
