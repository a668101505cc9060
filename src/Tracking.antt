-- ===== src/Tracking.antt =====
-- The tracking module: src/modules/tracking.
pub mod Batch
pub mod Hint
pub mod Points
pub mod Telemetry
pub mod Latest
pub mod Bounds
pub mod Newest
mod Scenarios
