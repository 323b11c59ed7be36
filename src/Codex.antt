-- ===== src/Codex.antt =====
-- src/proteo_runtime/providers/codex: the provider that runs a turn of the Codex SDK.
pub mod Turns
pub mod Publishing
pub mod Runner
pub mod Bridge
pub mod Mux
pub mod Validation
pub mod Attempts
pub mod Structured
pub mod Schema
pub mod Task
pub mod Session
