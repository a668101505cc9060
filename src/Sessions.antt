-- ===== src/Sessions.antt =====
-- The sessions and their refresh tokens: src/modules/sessions/session.service.ts.
pub mod Service
pub mod Login
pub mod Rotation
pub mod Bound
mod Scenarios
