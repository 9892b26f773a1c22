-- ===== src/Credits.antt =====
-- src/credits.rs: the classes of JSON-RPC methods (Class), the cost table (Cost) and the parsing of a
-- request body (Parse); what is proved of them stands in Choice, Table, Estimate and Body.
mod Class
mod Cost
mod Parse
pub mod Choice
pub mod Table
pub mod Estimate
pub mod Body
mod Examples
mod UnitTests
unfoldable pub use Class.*
unfoldable pub use Cost.*
unfoldable pub use Parse.*
