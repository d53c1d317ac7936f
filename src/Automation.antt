-- ===== src/Automation.antt =====
-- src/automation: the schedule of the automations and a run of one.
pub mod Scheduler
pub mod Runs
pub mod Runner
mod Tests
