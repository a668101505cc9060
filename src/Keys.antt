-- ===== src/Keys.antt =====
-- End-to-end keys: src/modules/e2ee-keys.
pub mod Service
pub mod Queue
pub mod Claims
mod Scenarios
