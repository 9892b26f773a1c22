-- ===== src/Config.antt =====
-- src/config.rs: the configuration's records (Schema), their defaults (Defaults) and
-- `Config::validate` (Validate), with what validation guarantees (Checks), and loading (Load), where what
-- figment, toml and serde read is a parameter.
mod Schema
mod Defaults
mod Validate
mod Checks
pub mod Load
mod Examples
pub use Schema.*
pub use Defaults.*
unfoldable pub use Validate.*
pub use Checks.*
