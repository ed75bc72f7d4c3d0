-- ===== src/Lifecycle.antt =====
-- app/services/domains.py: one domain through its life.
pub mod Events
pub mod Status
pub mod Claims
pub mod Sound
pub mod Preserve
pub mod Ownership
pub mod Reissue
pub mod Reissued
pub mod Steps
pub mod Identity
pub mod Stamps
