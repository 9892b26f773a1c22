-- ===== src/Upstream.antt =====
-- The keys of src/upstream.rs: the state of one key and its methods (Key), its snapshot for `/stats`
-- (Stat); what is proved of them stands in Accounting and Cooldown. Calendar has the numbers of the months
-- and days.
mod Key
mod Stat
pub mod Accounting
pub mod Cooldown
pub mod Calendar
mod Examples
unfoldable pub use Key.*
unfoldable pub use Stat.*
