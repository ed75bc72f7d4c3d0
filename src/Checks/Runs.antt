-- ===== src/Checks/Runs.antt =====
-- The observations of the workers as runs of the operations on a domain row, and that they do not raise.
use custom_domain.Common.{
  ℕ, ◌≡◌, ◌≢◌, inl, inr, Bool, ◌&&◌, Option, some, arith, Text, Time, Bool-cases, codes,
}
use custom_domain.Errors.{Result, ok, >>=-ok}
use custom_domain.Model.{DomainStatus, CheckType, CheckStatus, Reason, Domain, Log, active_claim}
use custom_domain.Lifecycle.Status.{transition_status}
use custom_domain.Lifecycle.Steps.{transition, observe, verify, Reach, here, next, Reach-trans}
use custom_domain.Checks.Outcomes.{Outcome, passing}
use custom_domain.Checks.Schedule.{fast_recheck_due}
use custom_domain.Checks.Apply.{
  record_outcome, verify_pending, promote, degrade, dns_rules, apply_dns_outcomes, claim_pending,
}
use custom_domain.Checks.Edge.{record_edge_outcome, become_ready, apply_edge_outcomes}

-- An outcome is never `pending`.
abbrev pub Decided : Outcome → Type 0
Decided o = o.status ≢ CheckStatus.pending

module _ (token_urlsafe : ℕ → ℕ → Text) where
  record_outcome-Reach :
      (fast : Bool) (t : CheckType) (o : Outcome) (now : Time) (s out : Domain × Log)
      → Decided o
      → record_outcome fast t o now s ≡ ok out
      → Reach token_urlsafe s.0 out.0
  unfolding record_outcome
  record_outcome-Reach fast t o now (d, log) out p h =
      next here (observe t o.status o.error_code _ now _ log out p h)

  record_edge_outcome-Reach :
      (t : CheckType) (o : Outcome) (now : Time) (s out : Domain × Log)
      → Decided o
      → record_edge_outcome t o now s ≡ ok out
      → Reach token_urlsafe s.0 out.0
  unfolding record_edge_outcome
  record_edge_outcome-Reach t o now (d, log) out p h =
      next here (observe t o.status o.error_code _ now _ log out p h)

  transition-Reach :
      (status : DomainStatus) (reason : Option Reason) (now : Time) (d : Domain) (log : Log)
      (out : Domain × Log)
      → transition_status status reason now d log ≡ ok out
      → Reach token_urlsafe d out.0
  transition-Reach status reason now d log out h =
      next here (transition status reason now log out h)

  same-Reach :
      (d : Domain) (log : Log) (out : Domain × Log)
      → Result.ok (d, log) ≡ ok out
      → Reach token_urlsafe d out.0
  same-Reach d log out h = let e : out.0 ≡ d = ground arith in rw e here

  verify_pending-Reach :
      (now : Time) (s out : Domain × Log)
      → verify_pending now s ≡ ok out
      → Reach token_urlsafe s.0 out.0
  unfolding verify_pending
  verify_pending-Reach now (d, log) out h = elim (Bool-cases (claim_pending (active_claim d))) [
    | inl t ↦ next here (verify (codes "dns_txt") now log out (rw t at h))
    | inr f ↦ same-Reach d log out (rw f at h)
  ]

  promote-Reach :
      (now : Time) (s out : Domain × Log) → promote now s ≡ ok out → Reach token_urlsafe s.0 out.0
  unfolding promote
  promote-Reach now (d, log) out h = ground (
    arith,
    transition-Reach DomainStatus.provisioning (some Reason.dns_verified) now d log out,
    transition-Reach DomainStatus.ready (some Reason.recovered) now d log out,
    same-Reach d log out,
  )

  degrade-Reach :
      (o : Outcome) (since now : Time) (s out : Domain × Log)
      → degrade o since now s ≡ ok out
      → Reach token_urlsafe s.0 out.0
  unfolding degrade
  degrade-Reach o since now (d, log) out h = ground (
    arith,
    transition-Reach DomainStatus.pending_dns (some (Reason.check_failed CheckType.ownership)) now d
        log out,
    transition-Reach DomainStatus.pending_dns (some (Reason.check_failed CheckType.routing)) now d
        log out,
    transition-Reach DomainStatus.suspended (some Reason.ownership_lost) now d log out,
    same-Reach d log out,
  )

  become_ready-Reach :
      (now : Time) (s out : Domain × Log)
      → become_ready now s ≡ ok out
      → Reach token_urlsafe s.0 out.0
  unfolding become_ready
  become_ready-Reach now (d, log) out h = ground (
    arith,
    transition-Reach DomainStatus.ready (some Reason.readiness_probe_passed) now d log out,
    transition-Reach DomainStatus.ready (some Reason.recovered) now d log out,
    same-Reach d log out,
  )

  dns_rules-Reach :
      (ownership routing : Outcome) (since now : Time) (s out : Domain × Log)
      → dns_rules ownership routing since now s ≡ ok out
      → Reach token_urlsafe s.0 out.0
  unfolding dns_rules
  dns_rules-Reach ownership routing since now s out h =
      elim (Bool-cases (passing ownership && passing routing)) [
        | inl t ↦
            let (s', first, rest) = >>=-ok (verify_pending now s) _ (rw t at h) in
            Reach-trans token_urlsafe (verify_pending-Reach now s s' first)
              (promote-Reach now s' out rest)
        | inr f ↦ degrade-Reach ownership since now s out (rw f at h)
      ]

  -- What the DNS checks do to a row is a run of the operations on it, so it keeps what every run keeps.
  pub apply_dns_outcomes-Reach :
      (ownership routing : Outcome) (now : Time) (d : Domain) (log : Log) (out : Domain × Log)
      → Decided ownership
      → Decided routing
      → apply_dns_outcomes ownership routing now d log ≡ ok out
      → Reach token_urlsafe d out.0
  unfolding apply_dns_outcomes
  apply_dns_outcomes-Reach ownership routing now d log out p q h =
      let fast = fast_recheck_due d now in
      let (s₁, first, more) =
        >>=-ok (record_outcome fast CheckType.ownership ownership now (d, log)) _ h in
      let (s₂, second, rest) =
        >>=-ok (record_outcome fast CheckType.routing routing now s₁) _ more in
      Reach-trans token_urlsafe
        (record_outcome-Reach fast CheckType.ownership ownership now (d, log) s₁ p first)
        (Reach-trans token_urlsafe
          (record_outcome-Reach fast CheckType.routing routing now s₁ s₂ q second)
          (dns_rules-Reach ownership routing _ now s₂ out rest))

  -- So is what the edge checks do to it.
  pub apply_edge_outcomes-Reach :
      (certificate origin : Outcome) (now : Time) (d : Domain) (log : Log) (out : Domain × Log)
      → Decided certificate
      → Decided origin
      → apply_edge_outcomes certificate origin now d log ≡ ok out
      → Reach token_urlsafe d out.0
  unfolding apply_edge_outcomes
  apply_edge_outcomes-Reach certificate origin now d log out p q h =
      let (s₁, first, more) =
        >>=-ok (record_edge_outcome CheckType.certificate certificate now (d, log)) _ h in
      let (s₂, second, rest) = >>=-ok (record_edge_outcome CheckType.origin origin now s₁) _ more in
      Reach-trans token_urlsafe
        (record_edge_outcome-Reach CheckType.certificate certificate now (d, log) s₁ p first)
        (Reach-trans token_urlsafe
          (record_edge_outcome-Reach CheckType.origin origin now s₁ s₂ q second)
          (become_ready-Reach now s₂ out rest))
