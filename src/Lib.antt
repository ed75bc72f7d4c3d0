-- ===== src/Lib.antt =====
-- The service that registers customers' hostnames for applications (SaaS tenants), verifies them by
-- DNS, and tells the edge which hostname to serve for whom.
--
-- The parts, and the files that model them. Paths of the program are from the repository's root.
--
-- - app/models: the enumerations, rows and their properties, in Model (Enums, Tenants, Domains,
--   Webhooks). A domain row carries its claims and checks as lists, as the ORM's relationships do.
-- - app/services/errors.py: Errors, the exceptions as a data type and the result type of operations.
--   An exception rolls its transaction back, so an error carries no state.
-- - app/hostname.py: Hostname, `canonicalize` with its rules.
-- - app/services/webhooks.py: Webhooks.Outbox, the deliveries that an event causes, and
--   Webhooks.Subscriptions, the subscriptions with their secrets, and replay.
-- - app/webhooks/signature.py and worker.py: Webhooks.Signature and Webhooks.Delivery. An attempt
--   on a delivery, with its request, is one step.
-- - app/services/domains.py, on one row: Lifecycle. Events has `record_event`; Status has
--   `transition_status`, `record_check`, `checks_passing` and `is_serveable`; Claims has
--   `_issue_claim`, `reissue_claim`, `mark_claim_verified`, `_revoke_live_claim` and the marking of
--   `delete_domain`. Sound is the invariant of a row; Steps has the operations as a step relation.
-- - app/services/domains.py and limits.py, on the database: Registry. Tables has the lookup and the
--   write of a row; Limits the limits and budgets; Claim has `claim_domain`; Reads the queries;
--   Requests `delete_domain`, `request_recheck`, `reissue_claim` and `reissue_claims_for_target`;
--   Purge `purge_tombstones`. Sound is the invariant of the database, Steps its step relation, whose
--   step `work` stands for a worker that runs operations on one row. Refinement relates the steps
--   to those of an abstract map from hostnames to owners.
-- - app/dns/zones.py: Dns.Zones, the zone of a name.
-- - app/services/dns_checks.py, edge_checks.py and `cname_chain` of app/dns/resolver.py: Checks.
--   Resolver walks CNAME records, Outcomes judges the answers, Schedule has `schedule_next` and the
--   fast rechecks of app/services/domain_connect.py, Apply has `apply_dns_outcomes`, Edge the
--   certificate and origin checks, Worker composes them. Runs shows them as runs of Lifecycle.Steps.
-- - app/dns/worker.py: Checks.Leasing has the leases and `_load`, Checks.Process `process_domain`,
--   phase by phase, and `run_due_checks`. What other sessions do before each transaction of the
--   worker is a function on the database, and which calls of other code raise is a parameter; an
--   exception rolls the open transaction back.
-- - app/edge/config.py: Edge.Routes, which hostnames the edge routes and to which origin, with
--   `pinned_dial` of app/services/origin_verification.py.
-- - app/services/applications.py: Tenants, the applications (Applications), the API keys
--   (Credentials) and the origins (Origins).
-- - app/services/connect_sessions.py: Connect.Sessions, the links to the setup page of a domain.
-- - app/services/idempotency.py: Requests.Idempotency.
-- - app/v1/throttle.py: Requests.Throttle, the budget of a credential, and Requests.FailedAuth, the
--   failed requests of an address.
-- - Common holds Boolean tests, lists as tables, texts as code points with the reading and writing
--   of decimal numbers, and time in microseconds.
-- - Tests runs the theorems at concrete data.
--
-- State is passed explicitly: an operation takes the row and the log (events, webhook subscriptions,
-- deliveries and the supply of identifiers) or the whole database, and returns the new one or an
-- error. Identifiers are natural numbers that the log hands out. Random tokens are a parameter, a
-- function of the number of bytes and of the draw. The IDNA encoder, the parser of IP addresses, the
-- public suffix list, SHA-256, HMAC, the JSON of a payload, the requests of webhooks, the parser of
-- URLs, the order of the database on texts, the addresses of a host, the resolver's answers and the
-- probes of the edge are parameters too.
-- Transactions on the tables run one at a time, as the locks make them.
--
-- The walk along CNAME records takes the eight hops of the program at most, and the writing of a
-- number has as fuel one more than the number, which is enough for its digits. Every
-- other definition is structural recursion.
--
-- Not modelled: texts for people (error messages), columns that the ORM stamps, metrics and logging;
-- the search of the portal; the timers around the batches of the workers; the rendering of the
-- edge's configuration, the HTTP layer, the portal, the command line and the migrations, which are
-- input and output around the services.
pub mod Common
pub mod Model
pub mod Hostname
pub mod Errors
pub mod Webhooks
pub mod Lifecycle
pub mod Dns
pub mod Checks
pub mod Tenants
pub mod Requests
mod Tests
pub mod Registry
pub mod Edge
pub mod Connect
