-- ===== src/Requests.antt =====
-- app/services/idempotency.py and app/v1/throttle.py: what a request of the API goes through.
pub mod Idempotency
pub mod IdempotencyLaws
pub mod Throttle
pub mod ThrottleLaws
pub mod Window
pub mod FailedAuth
pub mod Buckets
pub mod FailedAuthLaws
pub mod Stamps
