-- ===== src/Deliveries.antt =====
-- The deliveries module: src/modules/deliveries and src/modules/pod.
pub mod Model
pub mod World
pub mod Inversion
pub mod Service
pub mod Completion
pub mod Stops
pub mod Evolution
pub mod Pod
pub mod Conflicts
pub mod Controllers
pub mod Eligibility
pub mod Races
pub mod Access
mod Scenarios
