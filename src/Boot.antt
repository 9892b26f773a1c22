-- ===== src/Boot.antt =====
-- src/main.rs, and `AppState::new` of src/state.rs: how the process starts (Start), what it runs beside the
-- server (Background), and its life through saves, crashes and restarts (Life). What is proved: Choices (what
-- its flags come to), Outcome (when and from what it starts), Durable (what a boot finds)
-- and Resume (that it resumes the counters).
mod Start
mod Background
pub mod Choices
pub mod Outcome
pub mod Life
pub mod Durable
pub mod Resume
mod Examples
unfoldable pub use Start.*
unfoldable pub use Background.*
