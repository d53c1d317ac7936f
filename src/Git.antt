-- ===== src/Git.antt =====
-- src/git: the modules for the parts of the delivery of a branch.
pub mod MergePolicy
pub mod RepoRouter
mod Tests
