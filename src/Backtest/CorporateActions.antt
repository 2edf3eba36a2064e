-- ===== src/Backtest/CorporateActions.antt =====
-- Dividends and share bonuses by their business dates (src/backtest/corporate_actions.py).
pub mod Processor
pub mod Checks
pub mod Sessions
pub mod Calendar
pub mod Filing
pub mod Dates
mod Tests
