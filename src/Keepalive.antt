-- ===== src/Keepalive.antt =====
-- `ping_all` of src/keepalive.rs (Ping), and what a round of pings does to the keys (Effect).
mod Ping
pub mod Effect
mod Examples
unfoldable pub use Ping.*
