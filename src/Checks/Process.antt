-- ===== src/Checks/Process.antt =====
-- app/dns/worker.py: the worker that leases a domain, queries and probes outside any transaction, and applies what it
-- observed. What other sessions do between the worker's transactions, the hook on a status change among them, is a function on
-- the database; the detected zone is a parameter, and an exception rolls its own transaction back. Which calls of other code
-- raise, of the resolver, the detector, the probes or the database, is a parameter too.
use custom_domain.Common.{
  ℕ, suc, Bool, true, false, not, ◌&&◌, ◌||◌, Option, none, some, List, [], ◌∷◌, map, select, any,
  update, take, Text, Time, if◌then◌else◌,
}
use custom_domain.Errors.{Result, ok, err, ◌>>=◌}
use custom_domain.Model.{DomainStatus, CheckType, Domain, Log, is_deleted, status_eq}
use custom_domain.Registry.{Store, save}
use custom_domain.Registry.{make_due}
use custom_domain.Checks.Resolver.{Resolver}
use custom_domain.Checks.Outcomes.{Outcome, ownership_outcome, routing_outcome}
use custom_domain.Checks.Apply.{apply_dns_outcomes}
use custom_domain.Checks.Edge.{EdgeProber, certificate_outcome, origin_outcome, apply_edge_outcomes}
use custom_domain.Checks.Leasing.{
  dns_check_types, edge_check_types, check_due, among, due_check_types, lease_domain, load,
  claim_version, same_version, application_of, eligible_for_edge_checks,
}

-- What a transaction of `process_domain` leaves behind: nothing more to do, or the row to go on with.
pub record Processed : Type 0 where
  pub done : Bool
  pub status_changed : Bool

abbrev pub skipped : Processed
skipped = record { done = false; status_changed = false }

-- The row that was loaded, and which of its checks the worker has leased.
pub record Job : Type 0 where
  pub domain : Domain
  pub dns_due : Bool
  pub edge_due : Bool

abbrev pub job : List CheckType → Option Domain → Option Job
job types none = none
job types (some d) = some (record {
  domain = d;
  dns_due = any (among dns_check_types) types;
  edge_due = any (among edge_check_types) types;
})

-- The lease is committed before the row is loaded; other sessions run in between.
abbrev pub loaded : ℕ → List CheckType → (Store → Store) → Bool × Store → Option Job × Store
loaded domain_id types others (false, store) = (none, store)
loaded domain_id types others (true, store) =
    (job types (load domain_id (others store)), others store)

unfoldable pub lease_and_load :
    ℕ → Time → List CheckType → (Store → Store) → Store → Option Job × Store
lease_and_load domain_id now [] others store = (none, store)
lease_and_load domain_id now (t ∷ ts) others store =
    loaded domain_id (t ∷ ts) others (lease_domain domain_id now (t ∷ ts) false store)

-- `if zone is not None and domain.zone != zone: domain.zone = zone`
abbrev pub with_zone : Option Text → Domain → Domain
with_zone none d = d
with_zone (some zone) d = record d { zone = some zone }

-- The observations against the row as it is now: nothing if they belong to another claim.
unfoldable pub observed_row :
    Outcome → Outcome → Option Text → Domain → Time → Domain → Log → Result (Option (Domain × Log))
observed_row ownership routing zone queried now d log =
    if not (same_version (claim_version d) (claim_version queried)) then ok none else (do
      s ← apply_dns_outcomes ownership routing now d log
      ok (some (with_zone zone s.0, s.1)))

unfoldable pub dns_due_again : Time → Domain → Domain
dns_due_again now d = record d {
  checks = update (λ c. among dns_check_types c.check_type) (make_due now) d.checks;
}

-- A status change makes the edge checks follow right away.
abbrev pub lease_edge : ℕ → Time → Bool → Bool → Store → Bool × Store
lease_edge domain_id now changed edge_due store =
    if changed && not edge_due
    then lease_domain domain_id now edge_check_types true store
    else (edge_due, store)

-- The end of the DNS transaction, with whether the edge checks are leased.
abbrev pub settle_dns :
    ℕ → Job → Time → Domain → Store → Option (Domain × Log) → Option Bool × Store
settle_dns domain_id j now d store none = (none, save (dns_due_again now d, store.log) store)
settle_dns domain_id j now d store (some s) =
    let (edge_due, store') =
      lease_edge domain_id now (not (status_eq s.0.status j.domain.status)) j.edge_due
        (save s store) in
    (some edge_due, store')

abbrev pub record_dns_found :
    ℕ
    → Outcome
    → Outcome
    → Option Text
    → Job
    → Time
    → Store
    → Option Domain
    → Result (Option Bool × Store)
record_dns_found domain_id ownership routing detected j now store none = ok (none, store)
record_dns_found domain_id ownership routing detected j now store (some d) = do
  s ← observed_row ownership routing detected j.domain now d store.log
  ok (settle_dns domain_id j now d store s)

unfoldable pub record_dns :
    ℕ → Outcome → Outcome → Option Text → Job → Time → Store → Result (Option Bool × Store)
record_dns domain_id ownership routing zone j now store =
    record_dns_found domain_id ownership routing zone j now store (load domain_id store)

abbrev pub record_edge_found :
    Outcome → Outcome → Domain → Time → Store → Option Domain → Result (Option DomainStatus × Store)
record_edge_found certificate origin probed now store none = ok (none, store)
record_edge_found certificate origin probed now store (some d) =
    if not (same_version (claim_version d) (claim_version probed))
      || not (eligible_for_edge_checks d store)
    then ok (some d.status, store)
    else (do
      s ← apply_edge_outcomes certificate origin now d store.log
      ok (some s.0.status, save s store))

-- The last transaction, with the status that it leaves.
unfoldable pub record_edge :
    ℕ → Outcome → Outcome → Domain → Time → Store → Result (Option DomainStatus × Store)
record_edge domain_id certificate origin probed now store =
    record_edge_found certificate origin probed now store (load domain_id store)

-- `domain_changed`
abbrev pub changed_from : DomainStatus → Option DomainStatus → Bool
changed_from before none = true
changed_from before (some after) = not (status_eq before after)

abbrev pub done : DomainStatus → Option DomainStatus → Processed
done before after = record { done = true; status_changed = changed_from before after }

-- Where other code may raise: while the checks are leased, the row is loaded, the DNS is queried and its outcomes written, the row is
-- read again, or the edge is probed and its outcomes written.
pub data Point : Type 0 where
  leasing loading querying reading probing : Point

-- What the worker meets while it handles one domain: the clock and the other sessions before each of its transactions, the answers of
-- the network, and the calls that raise.
pub record World : Type 0 where
  pub clock : ℕ → Time
  pub others : ℕ → Store → Store
  pub resolver : Resolver
  pub prober : EdgeProber
  pub zone : Option Text
  pub disable_https : Bool
  pub raises : Point → Bool

-- `none` is an exception, which rolls the open transaction back to `store`.
abbrev pub unless_raised : Bool → Store → Option Processed × Store → Option Processed × Store
unless_raised true store next = (none, store)
unless_raised false store next = next

module _ (id_text : ℕ → Text) (w : World) (domain_id : ℕ) where
  abbrev pub edge_recorded :
      DomainStatus → Store → Result (Option DomainStatus × Store) → Option Processed × Store
  edge_recorded before store (err e) = (none, store)
  edge_recorded before store (ok (after, store')) = (some (done before after), store')

  -- The edge phase. The second load only tells whether the row is still there: the session answers with the row and the
  -- application that it has read before, in `seen`.
  abbrev pub edge_phase :
      Bool → DomainStatus → Store → Store → Option Domain → Option Domain → Option Processed × Store
  edge_phase edge_due before seen store none known = (some (done before none), store)
  edge_phase edge_due before seen store (some d) none = (some (done before none), store)
  edge_phase edge_due before seen store (some d) (some known) =
      let certificate = certificate_outcome w.prober known w.disable_https (w.clock 4) in
      let origin = origin_outcome id_text (application_of known seen) known (some w.prober) in
      let store' = w.others 5 store in
      if not edge_due || not (eligible_for_edge_checks known seen)
      then (some (done before (some known.status)), store)
      else unless_raised (w.raises probing) store' (
          edge_recorded before store'
            (record_edge domain_id certificate origin known (w.clock 5) store'))

  abbrev pub after_dns : Job → Store → Result (Option Bool × Store) → Option Processed × Store
  after_dns j store (err e) = (none, store)
  after_dns j store (ok (none, store')) = (some skipped, store')
  after_dns j store (ok (some edge_due, store')) =
      let next = w.others 4 store' in
      unless_raised (w.raises reading) next (
        edge_phase edge_due j.domain.status store' next (load domain_id next)
          (load domain_id store'))

  unfoldable pub dns_phase : Job → Store → Option Processed × Store
  dns_phase j store =
      let ownership = ownership_outcome w.resolver j.domain in
      let routing = routing_outcome w.resolver j.domain in
      let store' = w.others 3 store in
      unless_raised (w.raises querying) store'
        (after_dns j store' (record_dns domain_id ownership routing w.zone j (w.clock 3) store'))

  abbrev pub run_phases : Option Job × Store → Option Processed × Store
  run_phases (none, store) = (some skipped, store)
  run_phases (some j, store) =
      if j.dns_due then dns_phase j store else after_dns j store (ok (some j.edge_due, store))

  unfoldable pub process_domain : Store → Option Processed × Store
  process_domain store =
      let started = w.others 0 store in
      let types = due_check_types domain_id (w.clock 0) started in
      let next = w.others 1 started in
      let leased = lease_and_load domain_id (w.clock 0) types (w.others 2) next in
      unless_raised (w.raises leasing) next
        (unless_raised (w.raises loading) leased.1 (run_phases leased))

-- The totals of a batch.
pub record WorkerResult : Type 0 where
  pub processed : ℕ
  pub failed : ℕ
  pub status_changes : ℕ

abbrev pub no_result : WorkerResult
no_result = record { processed = 0; failed = 0; status_changes = 0 }

abbrev pub counted_result : Option Processed → WorkerResult → WorkerResult
counted_result none r = record r { failed = suc r.failed }
counted_result (some p) r = record r {
  processed = if p.done then suc r.processed else r.processed;
  status_changes = if p.status_changed then suc r.status_changes else r.status_changes;
}

-- `due_domain_ids`, without the order of its rows.
abbrev pub is_due_domain : Time → Domain → Bool
is_due_domain now d =
    any (check_due now) d.checks
    && not (is_deleted d)
    && not (status_eq d.status DomainStatus.deleting)

-- The loop of `run_due_checks`: one bad domain does not stop the batch. A domain's world is found by its identifier.
unfoldable pub process_all :
    (ℕ → Text) → (ℕ → World) → List ℕ → WorkerResult × Store → WorkerResult × Store
process_all id_text worlds [] s = s
process_all id_text worlds (i ∷ is) (r, store) =
    let (outcome, store') = process_domain id_text (worlds i) i store in
    process_all id_text worlds is (counted_result outcome r, store')

unfoldable pub due_domain_ids : Time → ℕ → Store → List ℕ
due_domain_ids now limit store =
    take limit (map (λ d. d.id) (select (is_due_domain now) store.domains))

unfoldable pub run_due_checks : (ℕ → Text) → (ℕ → World) → Time → ℕ → Store → WorkerResult × Store
run_due_checks id_text worlds now limit store =
    process_all id_text worlds (due_domain_ids now limit store) (no_result, store)
