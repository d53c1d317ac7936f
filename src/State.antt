-- ===== src/State.antt =====
-- src/state: which workflow states there are, and which moves between them are allowed.
pub mod Machine
pub mod Policy
mod Tests
