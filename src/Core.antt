-- ===== src/Core.antt =====
-- src/proteo_runtime/core: the provider-neutral vocabulary, its errors and its execution profiles.
pub mod Errors
pub mod Events
pub mod Effects
pub mod Input
pub mod Invocation
pub mod Profiles
