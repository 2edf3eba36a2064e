-- ===== src/QmtReceiver.antt =====
-- The receiver of the agent's quotes and its synchronised ranges (src/qmt_receiver/).
pub mod Receive
pub mod Agent
pub mod Served
pub mod Ranges
pub mod SyncMeta
pub mod Sync
mod Tests
mod SyncTests
