-- ===== src/Health.antt =====
-- controlplane/internal/health: the health protocol of the containers, and its collector.
pub mod Model
pub mod Collector
mod Tests
