-- ===== src/Tests.antt =====
-- Concrete data, and the theorems at it.
mod Data
mod Domains
mod Observations
mod Owned
mod Hooks
mod Limits
mod Workers
mod Accounts
mod Edges
mod Pages
