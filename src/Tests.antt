-- ===== src/Tests.antt =====
-- Samples, runs of the definitions on them, and the theorems at concrete inputs.
mod Samples
mod Profiles
mod Tools
mod Executions
pub mod Turns
mod Observers
mod Routing
mod Tasks
mod Sessions
mod Projections
mod Schemas
mod Structured
