-- ===== src/Registry.antt =====
-- app/services/domains.py and limits.py over the whole database: claims, reads, limits and purges.
mod Tables
mod Limits
mod Claim
mod Reads
mod Requests
mod Purge
pub mod Distinct
pub mod Sound
pub mod Keeps
pub mod Claimed
pub mod ClaimLaws
pub mod ClaimLimits
pub mod Steps
pub mod ReadLaws
pub mod Budgets
pub mod PurgeLaws
pub mod Owners
pub mod Refinement
unfoldable pub use Tables.*
unfoldable pub use Limits.*
unfoldable pub use Claim.*
unfoldable pub use Reads.*
unfoldable pub use Requests.*
unfoldable pub use Purge.*
