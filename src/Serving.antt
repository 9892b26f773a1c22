-- ===== src/Serving.antt =====
-- Many requests, pings and rollovers at once, on one pool (src/proxy.rs, src/keepalive.rs, src/stats.rs).
-- Task is one request or ping cut at its waits, System runs many of them in any order. Ledger is what the
-- gateway promises about the credits of its keys, Weights and Bounds are its sums and its invariant; Purses,
-- Posts, Departures and Landings take the state of a system to its ledger, Simulation and Reached what its
-- moves do to it. Passes and Alone are one request with nothing beside it; Work and Ending count the steps of
-- a request; Fixed and Names have what no move changes; Paid, Payments and Balance
-- are the sums of the charges and the books of the months.
mod Task
pub mod System
pub mod Ledger
pub mod Weights
pub mod Bounds
pub mod Purses
pub mod Posts
pub mod Departures
pub mod Landings
pub mod Simulation
pub mod Reached
pub mod Passes
pub mod Alone
pub mod Work
pub mod Ending
pub mod Fixed
pub mod Names
pub mod Paid
pub mod Payments
pub mod Balance
mod Examples
unfoldable pub use Task.*
unfoldable pub use System.*
