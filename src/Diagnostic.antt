-- ===== src/Diagnostic.antt =====
-- controlplane/internal/diagnostic: the diagnostic graph, and how observations of its edges are
-- evaluated.
pub mod Model
pub mod Formats
pub mod Document
pub mod Fields
pub mod Validate
pub mod Safety
pub mod Classify
pub mod Invocation
pub mod Client
pub mod Reports
pub mod Orchestrator
pub mod Evaluate
mod Tests
