-- ===== src/Persistence.antt =====
-- src/persistence/sqlite: how the records of attempts are kept in tables.
pub mod Mappers
pub mod AttemptStore
mod Tests
