-- ===== src/Routes.antt =====
-- Route optimisation: src/modules/routes/utils and services/route-optimizer.service.ts.
pub mod Tours
pub mod NearestNeighbor
pub mod Exhaustive
pub mod Visits
pub mod Improvement
pub mod Construction
pub mod Permutations
pub mod Optimum
pub mod Domain
pub mod Selection
pub mod Moves
pub mod RouteStops
pub mod Current
pub mod Sets
pub mod Placing
pub mod Acceptance
pub mod Reordering
mod Scenarios
