-- ===== src/Checks/ProcessLaws.antt =====
-- `process_domain` and `run_due_checks` of app/dns/worker.py and the invariant of the database.
use custom_domain.Common.{
  ℕ, ◌≡◌, refl, subst, inl, inr, Bool, true, false, not, ◌||◌, Option, none, some, List, [], ◌∷◌,
  Text, Time, arith, Bool-cases,
}
use custom_domain.Errors.{Result, ok, err}
use custom_domain.Model.{DomainStatus, Domain}
use custom_domain.Registry.{Store}
use custom_domain.Registry.Sound.{IsRegistry}
use custom_domain.Checks.Outcomes.{ownership_outcome, routing_outcome}
use custom_domain.Checks.Edge.{certificate_outcome, origin_outcome}
use custom_domain.Checks.Worker.{decided, ownership_outcome-decided, routing_outcome-decided}
use custom_domain.Checks.Leasing.{load, application_of, eligible_for_edge_checks, due_check_types}
use custom_domain.Checks.Process.{
  leasing, loading, querying, reading, probing, World, Processed, unless_raised, Job,
  lease_and_load, record_dns, record_edge, edge_recorded, edge_phase, after_dns, dns_phase,
  run_phases, process_domain, process_all, run_due_checks, due_domain_ids, no_result, WorkerResult,
}
use custom_domain.Checks.Writes.{
  lease_and_load-IsRegistry, record_dns_found-IsRegistry, certificate_outcome-decided,
  origin_outcome-decided, record_edge_found-IsRegistry, either-IsRegistry,
}

-- What another session leaves is a sound database.
abbrev pub Orderly : World → Type 0
Orderly w = (n : ℕ) (store : Store) → IsRegistry store → IsRegistry (w.others n store)

unless_raised-IsRegistry :
    (b : Bool) (store : Store) (next : Option Processed × Store)
    → IsRegistry store
    → IsRegistry next.1
    → IsRegistry (unless_raised b store next).1
unless_raised-IsRegistry true store next r s = r
unless_raised-IsRegistry false store next r s = s

module _ (id_text : ℕ → Text) (w : World) (domain_id : ℕ) (orderly : Orderly w) where
  edge_recorded-IsRegistry :
      (before : DomainStatus) (store : Store) (r : Result (Option DomainStatus × Store))
      → IsRegistry store
      → ((out : Option DomainStatus × Store) → r ≡ ok out → IsRegistry out.1)
      → IsRegistry (edge_recorded id_text w domain_id before store r).1
  edge_recorded-IsRegistry before store (err e) r h = r
  edge_recorded-IsRegistry before store (ok (after, store')) r h = h (after, store') refl

  edge_phase-IsRegistry :
      (edge_due : Bool) (before : DomainStatus) (seen store : Store) (o known : Option Domain)
      → IsRegistry store
      → IsRegistry (edge_phase id_text w domain_id edge_due before seen store o known).1
  unfolding record_edge
  edge_phase-IsRegistry edge_due before seen store none known r = r
  edge_phase-IsRegistry edge_due before seen store (some d) none r = r
  edge_phase-IsRegistry edge_due before seen store (some d) (some known) r =
      elim (Bool-cases (not edge_due || not (eligible_for_edge_checks known seen))) [
        | inl t ↦ rw t r
        | inr f ↦
            let certificate = certificate_outcome w.prober known w.disable_https (w.clock 4) in
            let origin = origin_outcome id_text (application_of known seen) known (some w.prober) in
            let next = w.others 5 store in
            rw f (
              unless_raised-IsRegistry (w.raises probing) next _ (orderly 5 store r) (
                edge_recorded-IsRegistry before next
                  (record_edge domain_id certificate origin known (w.clock 5) next)
                  (orderly 5 store r)
                  (λ out done.
                    record_edge_found-IsRegistry certificate origin
                      (decided certificate
                        (certificate_outcome-decided w.prober known w.disable_https (w.clock 4)))
                      (decided origin
                        (origin_outcome-decided id_text (application_of known seen) known w.prober))
                      domain_id known (w.clock 5) next (load domain_id next) out refl
                      (orderly 5 store r) done)))
      ]

  after_dns-IsRegistry :
      (j : Job) (store : Store) (o : Result (Option Bool × Store))
      → IsRegistry store
      → ((out : Option Bool × Store) → o ≡ ok out → IsRegistry out.1)
      → IsRegistry (after_dns id_text w domain_id j store o).1
  after_dns-IsRegistry j store (err e) r h = r
  after_dns-IsRegistry j store (ok (none, store')) r h = h (none, store') refl
  after_dns-IsRegistry j store (ok (some edge_due, store')) r h =
      let next = w.others 4 store' in
      let kept = orderly 4 store' (h (some edge_due, store') refl) in
      unless_raised-IsRegistry (w.raises reading) next _ kept (
        edge_phase-IsRegistry edge_due j.domain.status store' next (load domain_id next)
          (load domain_id store') kept)

  dns_phase-IsRegistry :
      (j : Job) (store : Store)
      → IsRegistry store
      → IsRegistry (dns_phase id_text w domain_id j store).1
  unfolding dns_phase record_dns
  dns_phase-IsRegistry j store r =
      let ownership = ownership_outcome w.resolver j.domain in
      let routing = routing_outcome w.resolver j.domain in
      let next = w.others 3 store in
      unless_raised-IsRegistry (w.raises querying) next _ (orderly 3 store r) (
        after_dns-IsRegistry j next
          (record_dns domain_id ownership routing w.zone j (w.clock 3) next) (orderly 3 store r)
          (λ out done.
            record_dns_found-IsRegistry ownership routing
              (decided ownership (ownership_outcome-decided w.resolver j.domain))
              (decided routing (routing_outcome-decided w.resolver j.domain)) domain_id w.zone j
              (w.clock 3) next (load domain_id next) out refl (orderly 3 store r) done))

  run_phases-IsRegistry :
      (s : Option Job × Store) → IsRegistry s.1 → IsRegistry (run_phases id_text w domain_id s).1
  run_phases-IsRegistry (none, store) r = r
  run_phases-IsRegistry (some j, store) r =
      either-IsRegistry j.dns_due (dns_phase id_text w domain_id j store) _
        (dns_phase-IsRegistry j store r)
        (after_dns-IsRegistry j store (ok (some j.edge_due, store)) r
          (λ out e. subst IsRegistry (ground arith) r))

  -- The worker keeps the database sound while it handles one domain, if the other sessions do so in between.
  process_domain-IsRegistry :
      (store : Store) → IsRegistry store → IsRegistry (process_domain id_text w domain_id store).1
  unfolding process_domain
  process_domain-IsRegistry store r =
      let started = w.others 0 store in
      let types = due_check_types domain_id (w.clock 0) started in
      let next = w.others 1 started in
      let leased = lease_and_load domain_id (w.clock 0) types (w.others 2) next in
      let ready = orderly 1 started (orderly 0 store r) in
      let kept =
        lease_and_load-IsRegistry domain_id (w.clock 0) types (w.others 2) next (orderly 2) ready in
      unless_raised-IsRegistry (w.raises leasing) next _ ready (
        unless_raised-IsRegistry (w.raises loading) leased.1 _ kept
          (run_phases-IsRegistry leased kept))

process_all-IsRegistry :
    (id_text : ℕ → Text) (worlds : ℕ → World) (ids : List ℕ) (s : WorkerResult × Store)
    → ((i : ℕ) → Orderly (worlds i))
    → IsRegistry s.1
    → IsRegistry (process_all id_text worlds ids s).1
unfolding process_all
process_all-IsRegistry id_text worlds [] s orderly r = r
process_all-IsRegistry id_text worlds (i ∷ is) (t, store) orderly r =
    process_all-IsRegistry id_text worlds is _ orderly
      (process_domain-IsRegistry id_text (worlds i) i (orderly i) store r)

-- A batch of the worker keeps the database sound, whatever the network answers, at whichever points of a domain's handling other
-- code raises, and whatever other sessions do before each of the worker's transactions, if that keeps it sound.
pub run_due_checks-IsRegistry :
    (id_text : ℕ → Text) (worlds : ℕ → World) (now : Time) (limit : ℕ) (store : Store)
    → ((i : ℕ) → Orderly (worlds i))
    → IsRegistry store
    → IsRegistry (run_due_checks id_text worlds now limit store).1
unfolding run_due_checks
run_due_checks-IsRegistry id_text worlds now limit store orderly r =
    process_all-IsRegistry id_text worlds (due_domain_ids now limit store) (no_result, store)
      orderly r
