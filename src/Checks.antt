-- ===== src/Checks.antt =====
-- app/services/dns_checks.py, edge_checks.py and app/dns/worker.py: what the worker observes of a domain, and the rules it drives.
pub mod Resolver
pub mod Outcomes
pub mod Schedule
pub mod Apply
pub mod Edge
pub mod Runs
pub mod Total
pub mod Observed
pub mod Pace
pub mod Fast
pub mod Failing
pub mod Worker
pub mod Leasing
pub mod Process
pub mod Writes
pub mod ProcessLaws
pub mod Leases
pub mod Ids
pub mod Current
