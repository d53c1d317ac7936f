-- ===== src/Orchestrator.antt =====
-- src/orchestrator: which issues are worked on, by which workers, and what becomes of them.
pub mod Runtime
pub mod State
pub mod Dispatch
pub mod Launch
pub mod Worker
pub mod Outcome
pub mod Finalize
pub mod Retry
pub mod Ended
pub mod Reconcile
pub mod Recovery
pub mod Invariant
pub mod Stall
pub mod Queue
pub mod Watchdog
pub mod Facade
mod Tests
