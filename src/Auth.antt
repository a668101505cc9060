-- ===== src/Auth.antt =====
-- Authentication: src/modules/auth, src/modules/users, src/modules/devices and src/modules/realtime/guards.
pub mod Tokens
pub mod Sockets
pub mod Devices
pub mod Users
pub mod Keys
pub mod Verdicts
pub mod Grace
pub mod Login
pub mod Registration
pub mod Grants
mod Scenarios
