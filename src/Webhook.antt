-- ===== src/Webhook.antt =====
-- internal/webhook
pub mod Signer
pub mod Tolerance
pub mod Verify
pub mod Dispatcher
pub mod Delivery
pub mod InFlight
pub mod Drain
pub mod Tests
