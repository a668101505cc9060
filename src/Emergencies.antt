-- ===== src/Emergencies.antt =====
-- Emergencies of drivers: src/modules/emergencies.
pub mod Service
pub mod Single
pub mod Runs
mod Scenarios
