-- ===== src/Checks/Total.antt =====
-- The observations of the workers do not raise on a live row.
use custom_domain.Common.{
  ◌≡◌, refl, ◌∙◌, inl, inr, Bool, true, false, ◌&&◌, Option, some, arith, Text, Time, Bool-cases,
  Option-cases, is_some, codes, first_sound,
}
use custom_domain.Errors.{ok, is_ok, is_ok-bind}
use custom_domain.Model.{
  DomainStatus, CheckType, CheckStatus, Details, OwnershipClaim, Domain, Log, status_eq_iff,
  is_deleted, active_claim, is_live_claim,
}
use custom_domain.Lifecycle.Status.{
  transition_status, record_check, demote, observed_check, with_check, claim_verified,
}
use custom_domain.Lifecycle.Claims.{mark_claim_verified, verified_claim}
use custom_domain.Lifecycle.Sound.{first-put_live_claim}
use custom_domain.Lifecycle.Preserve.{demote_ok}
use custom_domain.Lifecycle.Ownership.{mark_claim_verified_ok}
use custom_domain.Checks.Outcomes.{Outcome, passing}
use custom_domain.Checks.Schedule.{fast_recheck_due}
use custom_domain.Checks.Apply.{
  record_outcome, verify_pending, promote, degrade, dns_rules, apply_dns_outcomes, claim_pending,
}
use custom_domain.Checks.Edge.{record_edge_outcome, become_ready, apply_edge_outcomes}

-- A live row, with the claims of another.
abbrev pub Alive : Domain → Domain → Type 0
Alive d e = (is_deleted e ≡ false) × (active_claim e ≡ active_claim d)

record_check_total :
    (t : CheckType) (status : CheckStatus) (e : Option Text) (details : Option Details) (at : Time)
    (next : Option Time) (d : Domain) (log : Log)
    → is_deleted d ≡ false
    → is_ok (record_check t status e details at next d log) ≡ true
unfolding record_check demote transition_status is_deleted
record_check_total t status e details at next d log live =
    ground (arith, status_eq_iff d.status DomainStatus.ready)

record_check-Alive :
    (t : CheckType) (status : CheckStatus) (e : Option Text) (details : Option Details) (at : Time)
    (next : Option Time) (d : Domain) (log : Log) (out : Domain × Log)
    → is_deleted d ≡ false
    → record_check t status e details at next d log ≡ ok out
    → Alive d out.0
unfolding record_check is_deleted active_claim
record_check-Alive t status e details at next d log out live h =
    elim (demote_ok t status at (with_check (observed_check t status e details at next) d) _ h) [
      | inl (moved, _) ↦ rw moved (live, refl)
      | inr (same, _) ↦ rw same (live, refl)
    ]

record_outcome_total :
    (fast : Bool) (t : CheckType) (o : Outcome) (now : Time) (s : Domain × Log)
    → is_deleted s.0 ≡ false
    → is_ok (record_outcome fast t o now s) ≡ true
unfolding record_outcome
record_outcome_total fast t o now (d, log) live =
    record_check_total t o.status o.error_code _ now _ d log live

record_outcome-Alive :
    (fast : Bool) (t : CheckType) (o : Outcome) (now : Time) (s out : Domain × Log)
    → is_deleted s.0 ≡ false
    → record_outcome fast t o now s ≡ ok out
    → Alive s.0 out.0
unfolding record_outcome
record_outcome-Alive fast t o now (d, log) out live h =
    record_check-Alive t o.status o.error_code _ now _ d log out live h

record_edge_outcome_total :
    (t : CheckType) (o : Outcome) (now : Time) (s : Domain × Log)
    → is_deleted s.0 ≡ false
    → is_ok (record_edge_outcome t o now s) ≡ true
unfolding record_edge_outcome
record_edge_outcome_total t o now (d, log) live =
    record_check_total t o.status o.error_code _ now _ d log live

record_edge_outcome-Alive :
    (t : CheckType) (o : Outcome) (now : Time) (s out : Domain × Log)
    → is_deleted s.0 ≡ false
    → record_edge_outcome t o now s ≡ ok out
    → Alive s.0 out.0
unfolding record_edge_outcome
record_edge_outcome-Alive t o now (d, log) out live h =
    record_check-Alive t o.status o.error_code _ now _ d log out live h

-- After `verify_pending` the live claim, if there is one, is verified.
verify_pending_total :
    (now : Time) (s : Domain × Log) → is_deleted s.0 ≡ false → is_ok (verify_pending now s) ≡ true
unfolding verify_pending mark_claim_verified
verify_pending_total now (d, log) live = ground arith

live_decided :
    (c : OwnershipClaim)
    → is_live_claim c ≡ true
    → claim_pending (some c) ≡ false
    → claim_verified (some c) ≡ true
live_decided c l p = ground arith

unclaimed_or_verified :
    (d : Domain)
    → is_some (active_claim d) ≡ true
    → claim_pending (active_claim d) ≡ false
    → claim_verified (active_claim d) ≡ true
unfolding active_claim
unclaimed_or_verified d h f = elim (Option-cases (active_claim d)) [
  | inl missing ↦
      absurd (let e : is_some (active_claim d) ≡ false = rw missing refl in ground arith)
  | inr (c, found) ↦
      rw found (live_decided c (first_sound is_live_claim d.claims found) (rw found at f))
]

verify_pending_verified :
    (now : Time) (s out : Domain × Log)
    → is_deleted s.0 ≡ false
    → is_some (active_claim s.0) ≡ true
    → verify_pending now s ≡ ok out
    → (claim_verified (active_claim out.0) ≡ true) × (is_deleted out.0 ≡ false)
unfolding verify_pending is_deleted active_claim
verify_pending_verified now (d, log) out live h e =
    elim (Bool-cases (claim_pending (active_claim d))) [
      | inl t ↦
          let (claim, found, _, same) =
            mark_claim_verified_ok now d log (codes "dns_txt") (rw t at e) in
          let written =
            first-put_live_claim (verified_claim (codes "dns_txt") now claim) d.claims
              (ground arith) refl in
          rw same (rw written refl, live)
      | inr f ↦
          let same : out ≡ (d, log) = ground arith in rw same (unclaimed_or_verified d h f, live)
    ]

promote_total :
    (now : Time) (s : Domain × Log)
    → is_deleted s.0 ≡ false
    → claim_verified (active_claim s.0) ≡ true
    → is_ok (promote now s) ≡ true
unfolding promote transition_status
promote_total now (d, log) live h = ground (
  arith,
  status_eq_iff d.status DomainStatus.pending_dns,
  status_eq_iff d.status DomainStatus.suspended,
  status_eq_iff d.status DomainStatus.attention_required,
)

degrade_total :
    (o : Outcome) (since now : Time) (s : Domain × Log)
    → is_deleted s.0 ≡ false
    → is_ok (degrade o since now s) ≡ true
unfolding degrade transition_status
degrade_total o since now (d, log) live = ground (
  arith,
  status_eq_iff d.status DomainStatus.provisioning,
  status_eq_iff d.status DomainStatus.attention_required,
)

become_ready_total :
    (now : Time) (s : Domain × Log) → is_deleted s.0 ≡ false → is_ok (become_ready now s) ≡ true
unfolding become_ready transition_status
become_ready_total now (d, log) live = ground (
  arith,
  status_eq_iff d.status DomainStatus.provisioning,
  status_eq_iff d.status DomainStatus.attention_required,
)

dns_rules_total :
    (ownership routing : Outcome) (since now : Time) (s : Domain × Log)
    → is_deleted s.0 ≡ false
    → (passing ownership ≡ true → is_some (active_claim s.0) ≡ true)
    → is_ok (dns_rules ownership routing since now s) ≡ true
unfolding dns_rules
dns_rules_total ownership routing since now s live h =
    elim (Bool-cases (passing ownership && passing routing)) [
      | inl t ↦ rw t (
          is_ok-bind (verify_pending now s) (promote now) (verify_pending_total now s live)
            (λ out e.
              let (verified, still) = verify_pending_verified now s out live (h (ground arith)) e in
              promote_total now out still verified))
      | inr f ↦ rw f (degrade_total ownership since now s live)
    ]

-- On a live row, and with a live claim if the ownership check passes, recording the outcomes of the DNS checks
-- and applying the status rules never raises.
pub apply_dns_outcomes_total :
    (ownership routing : Outcome) (now : Time) (d : Domain) (log : Log)
    → is_deleted d ≡ false
    → (passing ownership ≡ true → is_some (active_claim d) ≡ true)
    → is_ok (apply_dns_outcomes ownership routing now d log) ≡ true
unfolding apply_dns_outcomes
apply_dns_outcomes_total ownership routing now d log live h =
    let fast = fast_recheck_due d now in
    is_ok-bind (record_outcome fast CheckType.ownership ownership now (d, log)) _
      (record_outcome_total fast CheckType.ownership ownership now (d, log) live)
      (λ s₁ first.
        let (live₁, same₁) =
          record_outcome-Alive fast CheckType.ownership ownership now (d, log) s₁ live first in
        is_ok-bind (record_outcome fast CheckType.routing routing now s₁) _
          (record_outcome_total fast CheckType.routing routing now s₁ live₁)
          (λ s₂ second.
            let (live₂, same₂) =
              record_outcome-Alive fast CheckType.routing routing now s₁ s₂ live₁ second in
            dns_rules_total ownership routing _ now s₂ live₂ (λ p. rw (same₂ ∙ same₁) (h p))))

-- On a live row, recording the outcomes of the edge checks never raises.
pub apply_edge_outcomes_total :
    (certificate origin : Outcome) (now : Time) (d : Domain) (log : Log)
    → is_deleted d ≡ false
    → is_ok (apply_edge_outcomes certificate origin now d log) ≡ true
unfolding apply_edge_outcomes
apply_edge_outcomes_total certificate origin now d log live =
    is_ok-bind (record_edge_outcome CheckType.certificate certificate now (d, log)) _
      (record_edge_outcome_total CheckType.certificate certificate now (d, log) live)
      (λ s₁ first.
        let (live₁, _) =
          record_edge_outcome-Alive CheckType.certificate certificate now (d, log) s₁ live first in
        is_ok-bind (record_edge_outcome CheckType.origin origin now s₁) _
          (record_edge_outcome_total CheckType.origin origin now s₁ live₁)
          (λ s₂ second.
            let (live₂, _) =
              record_edge_outcome-Alive CheckType.origin origin now s₁ s₂ live₁ second in
            become_ready_total now s₂ live₂))
