-- ===== src/Dns.antt =====
-- app/dns: where a hostname's records live, and what the resolver is asked.
pub mod Zones
