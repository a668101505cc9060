-- ===== src/Realtime.antt =====
-- The realtime module: src/modules/realtime.
pub mod Connections
pub mod Maps
pub mod Consistency
pub mod Registration
pub mod Revocation
pub mod Rooms
pub mod Scope
mod Scenarios
