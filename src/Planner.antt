-- ===== src/Planner.antt =====
-- controlplane/internal/planner/planner.go: the resolution of a validated manifest into a plan.
pub mod Replicas
pub mod Networks
pub mod Instances
pub mod Order
pub mod Build
mod Tests
