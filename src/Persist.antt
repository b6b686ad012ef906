-- ===== src/Persist.antt =====
-- controlplane/internal/persist/store.go: the tables of the state database, and the statements that
-- the store runs on them.
pub mod Tables
pub mod Leases
pub mod Health
pub mod Operations
pub mod Snapshots
pub mod Checkpoints
mod Tests
