-- ===== src/Observability.antt =====
-- src/proteo_runtime/observability: the dispatch of events to observers.
pub mod Failures
pub mod Bus
pub mod Keys
pub mod Projection
pub mod Shown
