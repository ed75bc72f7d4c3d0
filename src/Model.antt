-- ===== src/Model.antt =====
-- The database rows: app/models (enums.py, application.py, domain.py, webhook.py). UUIDs are drawn
-- from a counter, so a row's identifier is a number; JSON `metadata` is its text.
mod Enums
mod Tenants
mod Domains
mod Webhooks
unfoldable pub use Enums.*
unfoldable pub use Tenants.*
unfoldable pub use Domains.*
unfoldable pub use Webhooks.*
