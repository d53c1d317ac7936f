-- ===== src/Config.antt =====
-- src/config: the tree of overrides of the configuration.
pub mod Values
pub mod Overlay
pub mod Store
mod Tests
