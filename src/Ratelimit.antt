-- ===== src/Ratelimit.antt =====
-- src/ratelimit.rs: the cooldown of a rate-limited key (Backoff) and the token buckets of a key
-- (Buckets), with what is proved of them in Backoff/Band and Buckets/Unlimited.
mod Backoff
mod Buckets
pub mod Band
pub mod Entries
pub mod Counting
mod UnitTests
mod Examples
unfoldable pub use Backoff.*
unfoldable pub use Buckets.*
