-- ===== src/Linear.antt =====
-- src/linear: the pages that the issues of Linear come in.
pub mod Pagination
mod Tests
