-- ===== src/Checks/Ids.antt =====
-- The supply of identifiers under the operations of the check worker.
use custom_domain.Common.{
  ◌≤◌, ◌≡◌, inl, inr, Bool, ◌&&◌, Option, some, arith, Text, Time, Bool-cases, Option-cases, codes,
  le_trans,
}
use custom_domain.Errors.{ok, >>=-ok}
use custom_domain.Model.{
  DomainStatus, CheckType, CheckStatus, Reason, Details, EventType, Payload, Domain, Log,
  active_claim, check,
}
use custom_domain.Lifecycle.Events.{record_event, record_event-next_id}
use custom_domain.Lifecycle.Status.{
  transition_status, record_check, demote, with_check, observed_check, previous_status,
}
use custom_domain.Lifecycle.Claims.{mark_claim_verified, with_claim, verified_claim}
use custom_domain.Checks.Outcomes.{Outcome, passing}
use custom_domain.Checks.Schedule.{fast_recheck_due}
use custom_domain.Checks.Apply.{
  record_outcome, verify_pending, promote, degrade, dns_rules, apply_dns_outcomes,
}
use custom_domain.Checks.Edge.{record_edge_outcome, become_ready, apply_edge_outcomes}

-- The log of a result, against the one before.
abbrev pub Onward : Log → Domain × Log → Type 0
Onward log out = log.next_id ≤ out.1.next_id

transition_status-Onward :
    (status : DomainStatus) (reason : Option Reason) (now : Time) (d : Domain) (log : Log)
    (out : Domain × Log)
    → transition_status status reason now d log ≡ ok out
    → Onward log out
unfolding transition_status
transition_status-Onward status reason now d log out h =
    let moved = record d { status = status } in
    let e =
      record_event-next_id EventType.status_changed (Payload.status_changed d.status status reason)
        now moved log in
    ground (arith, e)

record_check-Onward :
    (t : CheckType) (status : CheckStatus) (e : Option Text) (details : Option Details) (at : Time)
    (next : Option Time) (d : Domain) (log : Log) (out : Domain × Log)
    → record_check t status e details at next d log ≡ ok out
    → Onward log out
unfolding record_check demote
record_check-Onward t status e details at next d log out h =
    let c = observed_check t status e details at next in
    let payload = Payload.check_updated t (previous_status (check t d)) status c.error_code in
    let log' = record_event EventType.check_updated payload at (with_check c d) log in
    let later = record_event-next_id EventType.check_updated payload at (with_check c d) log in
    ground (
      arith,
      later,
      transition_status-Onward DomainStatus.attention_required (some (Reason.check_failed t)) at
          (with_check c d) log' out,
    )

mark_claim_verified-Onward :
    (method : Text) (now : Time) (d : Domain) (log : Log) (out : Domain × Log)
    → mark_claim_verified method now d log ≡ ok out
    → Onward log out
unfolding mark_claim_verified
mark_claim_verified-Onward method now d log out h = elim (Option-cases (active_claim d)) [
  | inl missing ↦ absurd (let e = rw (missing, mark_claim_verified) at h in ground arith)
  | inr (claim, found) ↦
      let d' = with_claim (verified_claim method now claim) d in
      let later =
        record_event-next_id EventType.claim_verified (Payload.verified claim.id method) now d'
          log in
      let e = rw (found, mark_claim_verified) at h in ground (arith, later)
]

promote-Onward : (now : Time) (s out : Domain × Log) → promote now s ≡ ok out → Onward s.1 out
unfolding promote
promote-Onward now (d, log) out h = ground (
  arith,
  transition_status-Onward DomainStatus.provisioning (some Reason.dns_verified) now d log out,
  transition_status-Onward DomainStatus.ready (some Reason.recovered) now d log out,
)

degrade-Onward :
    (o : Outcome) (since now : Time) (s out : Domain × Log)
    → degrade o since now s ≡ ok out
    → Onward s.1 out
unfolding degrade
degrade-Onward o since now (d, log) out h = ground (
  arith,
  transition_status-Onward DomainStatus.pending_dns (some (Reason.check_failed CheckType.ownership))
      now d log out,
  transition_status-Onward DomainStatus.pending_dns (some (Reason.check_failed CheckType.routing))
      now d log out,
  transition_status-Onward DomainStatus.suspended (some Reason.ownership_lost) now d log out,
)

become_ready-Onward :
    (now : Time) (s out : Domain × Log) → become_ready now s ≡ ok out → Onward s.1 out
unfolding become_ready
become_ready-Onward now (d, log) out h = ground (
  arith,
  transition_status-Onward DomainStatus.ready (some Reason.readiness_probe_passed) now d log out,
  transition_status-Onward DomainStatus.ready (some Reason.recovered) now d log out,
)

record_outcome-Onward :
    (fast : Bool) (t : CheckType) (o : Outcome) (now : Time) (s out : Domain × Log)
    → record_outcome fast t o now s ≡ ok out
    → Onward s.1 out
unfolding record_outcome
record_outcome-Onward fast t o now (d, log) out h =
    record_check-Onward t o.status o.error_code _ now _ d log out h

record_edge_outcome-Onward :
    (t : CheckType) (o : Outcome) (now : Time) (s out : Domain × Log)
    → record_edge_outcome t o now s ≡ ok out
    → Onward s.1 out
unfolding record_edge_outcome
record_edge_outcome-Onward t o now (d, log) out h =
    record_check-Onward t o.status o.error_code _ now _ d log out h

verify_pending-Onward :
    (now : Time) (s out : Domain × Log) → verify_pending now s ≡ ok out → Onward s.1 out
unfolding verify_pending
verify_pending-Onward now (d, log) out h =
    ground (arith, mark_claim_verified-Onward (codes "dns_txt") now d log out)

dns_rules-Onward :
    (ownership routing : Outcome) (since now : Time) (s out : Domain × Log)
    → dns_rules ownership routing since now s ≡ ok out
    → Onward s.1 out
unfolding dns_rules
dns_rules-Onward ownership routing since now s out h =
    elim (Bool-cases (passing ownership && passing routing)) [
      | inl t ↦
          let (s', first, rest) = >>=-ok (verify_pending now s) _ (rw t at h) in
          le_trans (verify_pending-Onward now s s' first) (promote-Onward now s' out rest)
      | inr f ↦ degrade-Onward ownership since now s out (rw f at h)
    ]

pub apply_dns_outcomes-Onward :
    (ownership routing : Outcome) (now : Time) (d : Domain) (log : Log) (out : Domain × Log)
    → apply_dns_outcomes ownership routing now d log ≡ ok out
    → Onward log out
unfolding apply_dns_outcomes
apply_dns_outcomes-Onward ownership routing now d log out h =
    let fast = fast_recheck_due d now in
    let (s₁, first, more) =
      >>=-ok (record_outcome fast CheckType.ownership ownership now (d, log)) _ h in
    let (s₂, second, rest) = >>=-ok (record_outcome fast CheckType.routing routing now s₁) _ more in
    le_trans (record_outcome-Onward fast CheckType.ownership ownership now (d, log) s₁ first) (
      le_trans (record_outcome-Onward fast CheckType.routing routing now s₁ s₂ second)
        (dns_rules-Onward ownership routing _ now s₂ out rest))

pub apply_edge_outcomes-Onward :
    (certificate origin : Outcome) (now : Time) (d : Domain) (log : Log) (out : Domain × Log)
    → apply_edge_outcomes certificate origin now d log ≡ ok out
    → Onward log out
unfolding apply_edge_outcomes
apply_edge_outcomes-Onward certificate origin now d log out h =
    let (s₁, first, more) =
      >>=-ok (record_edge_outcome CheckType.certificate certificate now (d, log)) _ h in
    let (s₂, second, rest) = >>=-ok (record_edge_outcome CheckType.origin origin now s₁) _ more in
    le_trans (record_edge_outcome-Onward CheckType.certificate certificate now (d, log) s₁ first) (
      le_trans (record_edge_outcome-Onward CheckType.origin origin now s₁ s₂ second)
        (become_ready-Onward now s₂ out rest))
