-- ===== src/Webhooks.antt =====
-- app/services/webhooks.py, app/webhooks/signature.py and worker.py: the outbox, its subscriptions and its worker.
pub mod Outbox
pub mod Signature
pub mod SignatureLaws
pub mod Subscriptions
pub mod Delivery
pub mod Attempts
pub mod DeliveryLaws
pub mod Rotation
