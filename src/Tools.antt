-- ===== src/Tools.antt =====
-- src/proteo_runtime/tools/__init__.py: host-managed tools.
pub mod Values
pub mod Types
pub mod Registry
pub mod Effects
pub mod Executor
pub mod Dedup
pub mod Authority
