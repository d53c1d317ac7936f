-- ===== src/Core.antt =====
-- src/core: the records that the orchestrator's parts pass to one another.
pub mod Types
