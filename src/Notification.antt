-- ===== src/Notification.antt =====
-- src/notification: what is sent to the channels, and what is held back.
pub mod Manager
mod Tests
