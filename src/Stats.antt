-- ===== src/Stats.antt =====
-- src/stats.rs: the records of closed periods (Record), the global counters and the two rollovers (Roll).
-- What is proved of them: Retention (the daily history is trimmed), Closing (what a rollover records and
-- resets, and who wins it) and Ledger (no credit is lost between the counters and the history).
mod Record
mod Roll
pub mod Retention
pub mod Closing
pub mod Ledger
pub mod Books
pub mod Overlap
mod UnitTests
mod Examples
unfoldable pub use Record.*
unfoldable pub use Roll.*
