-- ===== src/MarketData.antt =====
-- The reading layer of the market data (src/market_data): the identity of securities.
pub mod Identity
