-- ===== src/Hostname.antt =====
-- app/hostname.py: the canonical form of customer hostnames.
mod Labels
mod Canonicalize
pub mod Laws
unfoldable pub use Labels.*
unfoldable pub use Canonicalize.*
