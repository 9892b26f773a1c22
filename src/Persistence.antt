-- ===== src/Persistence.antt =====
-- src/persistence.rs: the snapshot and its capture (Snapshot), what a boot does with it (Restore) and how
-- it is written (Save). Counters are the durable counters of a key. What is proved: Roundtrip (a snapshot
-- of the same month and day brings every durable counter back), Entries and Rollover (a restart across a
-- boundary beside the rollovers), Crash (a save that is cut off), Policy (a boot without a readable
-- snapshot) and Names (the names of the keys).
pub mod Snapshot
pub mod Counters
mod Restore
mod Save
pub mod Roundtrip
pub mod Entries
pub mod Rollover
pub mod Crash
pub mod Policy
pub mod Names
mod Examples
mod UnitTests
unfoldable pub use Snapshot.*
unfoldable pub use Restore.*
unfoldable pub use Save.*
