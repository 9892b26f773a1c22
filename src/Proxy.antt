-- ===== src/Proxy.antt =====
-- src/proxy.rs: what goes over the wire (Wire), the arms of the loop for one key (Arms) and the handler
-- with its retry loop (Handler). What is proved of them: Secrets (what reaches the upstream), Charging
-- (what a request costs the keys), Ending (how a request ends) and Retries, with Untried and Outcomes (how
-- often it tries a key).
mod Wire
mod Arms
mod Handler
pub mod Secrets
pub mod Charging
pub mod Ending
pub mod Untried
pub mod Outcomes
pub mod Retries
pub mod Examples
unfoldable pub use Wire.*
unfoldable pub use Arms.*
unfoldable pub use Handler.*
