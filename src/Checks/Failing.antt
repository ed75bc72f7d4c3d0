-- ===== src/Checks/Failing.antt =====
-- A failing check takes a domain out of service.
use custom_domain.Common.{
  ◌≡◌, inl, inr, Bool, true, false, ◌&&◌, ◌||◌, Option, arith, Text, Time, Bool-cases,
}
use custom_domain.Errors.{ok, >>=-ok}
use custom_domain.Model.{
  DomainStatus, CheckType, CheckStatus, Details, Application, Domain, Log, status_eq, is_failing,
}
use custom_domain.Lifecycle.Status.{
  record_check, observed_check, with_check, transition_status, is_serveable,
}
use custom_domain.Lifecycle.Preserve.{demote_ok}
use custom_domain.Checks.Outcomes.{Outcome, passing}
use custom_domain.Checks.Schedule.{fast_recheck_due}
use custom_domain.Checks.Apply.{record_outcome, degrade, dns_rules, apply_dns_outcomes}

abbrev is_ready : Domain → Bool
is_ready d = status_eq d.status DomainStatus.ready

-- A row that is ready after a check was recorded was ready before, and the check does not fail.
record_check-ready :
    (t : CheckType) (status : CheckStatus) (e : Option Text) (details : Option Details) (at : Time)
    (next : Option Time) (d : Domain) (log : Log) (out : Domain × Log)
    → record_check t status e details at next d log ≡ ok out
    → is_ready out.0 ≡ true
    → (is_failing status ≡ false) × (is_ready d ≡ true)
unfolding record_check
record_check-ready t status e details at next d log out h r =
    elim (demote_ok t status at (with_check (observed_check t status e details at next) d) _ h) [
      | inl (moved, _) ↦ absurd (let q = rw moved at r in cc)
      | inr (same, kept) ↦ let q = rw same at r in (ground arith, q)
    ]

record_outcome-ready :
    (fast : Bool) (t : CheckType) (o : Outcome) (now : Time) (s out : Domain × Log)
    → record_outcome fast t o now s ≡ ok out
    → is_ready out.0 ≡ true
    → (is_failing o.status ≡ false) × (is_ready s.0 ≡ true)
unfolding record_outcome
record_outcome-ready fast t o now (d, log) out h r =
    record_check-ready t o.status o.error_code _ now _ d log out h r

degrade-ready :
    (o : Outcome) (since now : Time) (s out : Domain × Log)
    → degrade o since now s ≡ ok out
    → is_ready out.0 ≡ true
    → is_ready s.0 ≡ true
unfolding degrade transition_status
degrade-ready o since now (d, log) out h r = ground arith

-- When the outcome of the ownership or of the routing check is a failure, the row that the DNS
-- checks leave is not served.
pub failing_dns_stops_service :
    (a : Option Application) (ownership routing : Outcome) (now : Time) (d : Domain) (log : Log)
    (out : Domain × Log)
    → (is_failing ownership.status || is_failing routing.status) ≡ true
    → apply_dns_outcomes ownership routing now d log ≡ ok out
    → is_serveable a out.0 ≡ false
unfolding apply_dns_outcomes dns_rules is_serveable
failing_dns_stops_service a ownership routing now d log out f h =
    let fast = fast_recheck_due d now in
    let (s₁, first, more) =
      >>=-ok (record_outcome fast CheckType.ownership ownership now (d, log)) _ h in
    let (s₂, second, rest) = >>=-ok (record_outcome fast CheckType.routing routing now s₁) _ more in
    let failed : (passing ownership && passing routing) ≡ false = ground arith in
    let last = degrade-ready ownership _ now s₂ out (rw failed at rest) in
    elim (Bool-cases (is_ready out.0)) [
      | inl t ↦
          let two = record_outcome-ready fast CheckType.routing routing now s₁ s₂ second (last t) in
          let one =
            record_outcome-ready fast CheckType.ownership ownership now (d, log) s₁ first two.1 in
          absurd (ground (arith, one.0, two.0))
      | inr u ↦ ground arith
    ]
