-- ===== src/QuoteSequence.antt =====
-- The ring buffer of sequenced quotes (src/qmt_agent/quote_sequence.py).
pub mod Defs
pub mod Log
pub mod Reads
mod Tests
unfoldable pub use Defs.{
  init, append_one, append, bounds, collect, read_window, respond, validate_window, validate_bounds,
  read_now, append_all, wait_loop, read, status,
}
pub use Defs.{QuoteSource, Origin, SequencedQuote, Buffer, Response, Status, slot}
