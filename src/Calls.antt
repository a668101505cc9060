-- ===== src/Calls.antt =====
-- Calls between the owner or an admin and a driver: src/modules/communication.
pub mod Service
pub mod Handlers
pub mod Evolution
pub mod Answers
mod Scenarios
