-- ===== src/Webhook.antt =====
-- src/webhook: the health of the webhook integration.
pub mod Health
mod Tests
