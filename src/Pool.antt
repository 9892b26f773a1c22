-- ===== src/Pool.antt =====
-- The pool of src/upstream.rs: selection (Select) and the other reads of all keys (View). The proofs:
-- Frame (what selection leaves alone), Scan (what one scan finds), Rotation (that the scan visits every
-- key once), Choice (what the selected key is, and what it means that there is none), Fit (that it is
-- there), Fairness (that every key has its turn), Waiting (the hint of `soonest_cooldown_secs`), and Names
-- (the names of the keys).
mod Select
mod View
pub mod Frame
pub mod Rotation
pub mod Scan
pub mod Choice
pub mod Fit
pub mod Fairness
pub mod Waiting
pub mod Names
mod UnitTests
mod Examples
unfoldable pub use Select.*
unfoldable pub use View.*
