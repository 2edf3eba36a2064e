-- ===== src/QmtAgent.antt =====
-- The agent beside the terminal: its subscriptions and their callbacks (src/qmt_agent/). The
-- buffer of numbered quotes is QuoteSequence.
pub mod Callback
pub mod Service
