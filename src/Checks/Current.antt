-- ===== src/Checks/Current.antt =====
-- The observations of `process_domain` of app/dns/worker.py and the claim that they are applied to.
use custom_domain.Common.{
  ◌≡◌, refl, sym, ap, subst, inl, inr, Bool, true, false, ◌&&◌, Option, none, some, List, any, Text,
  text_eq, text_eq_iff, strip, Time, arith, Bool-cases, ◌∙◌, codes, ◌++◌,
}
use custom_domain.Errors.{ok, >>=-ok}
use custom_domain.Model.{
  DomainStatus, CheckType, Reason, OwnershipClaim, Domain, Log, active_claim, txt_record_value,
}
use custom_domain.Lifecycle.Status.{claim_verified, transition_status, record_check, demote}
use custom_domain.Checks.Resolver.{Resolver, answer}
use custom_domain.Checks.Outcomes.{Outcome, passing, ownership_outcome, routing_outcome}
use custom_domain.Checks.Observed.{ownership_outcome-passing}
use custom_domain.Checks.Schedule.{fast_recheck_due}
use custom_domain.Checks.Apply.{record_outcome, degrade, dns_rules, apply_dns_outcomes}
use custom_domain.Checks.Leasing.{claim_version, version_of, same_version}
use custom_domain.Checks.Process.{with_zone, observed_row}

transition_status-claims :
    (status : DomainStatus) (reason : Option Reason) (now : Time) (d : Domain) (log : Log)
    (out : Domain × Log)
    → transition_status status reason now d log ≡ ok out
    → out.0.claims ≡ d.claims
unfolding transition_status
transition_status-claims status reason now d log out h = ground arith

record_outcome-claims :
    (fast : Bool) (t : CheckType) (o : Outcome) (now : Time) (s out : Domain × Log)
    → record_outcome fast t o now s ≡ ok out
    → out.0.claims ≡ s.0.claims
unfolding record_outcome record_check demote transition_status
record_outcome-claims fast t o now (d, log) out h = ground arith

degrade-claims :
    (o : Outcome) (since now : Time) (s out : Domain × Log)
    → degrade o since now s ≡ ok out
    → out.0.claims ≡ s.0.claims
unfolding degrade transition_status
degrade-claims o since now (d, log) out h = ground arith

-- If the ownership check does not pass, the claims stay as they are.
unproved-claims :
    (ownership routing : Outcome) (now : Time) (d : Domain) (log : Log) (out : Domain × Log)
    → passing ownership ≡ false
    → apply_dns_outcomes ownership routing now d log ≡ ok out
    → out.0.claims ≡ d.claims
unfolding apply_dns_outcomes dns_rules
unproved-claims ownership routing now d log out f h =
    let fast = fast_recheck_due d now in
    let (s₁, first, more) =
      >>=-ok (record_outcome fast CheckType.ownership ownership now (d, log)) _ h in
    let (s₂, second, rest) = >>=-ok (record_outcome fast CheckType.routing routing now s₁) _ more in
    let failed : (passing ownership && passing routing) ≡ false = ground arith in
    degrade-claims ownership _ now s₂ out (rw failed at rest)
    ∙ record_outcome-claims fast CheckType.routing routing now s₁ s₂ second
    ∙ record_outcome-claims fast CheckType.ownership ownership now (d, log) s₁ first

with_zone-claims : (zone : Option Text) (d : Domain) → (with_zone zone d).claims ≡ d.claims
with_zone-claims none d = refl
with_zone-claims (some zone) d = refl

still_fresh :
    (d e : Domain)
    → e.claims ≡ d.claims
    → claim_verified (active_claim d) ≡ false
    → claim_verified (active_claim e) ≡ true
    → ⊥
unfolding active_claim
still_fresh d e same fresh proved = let p = rw same at proved in ground arith

-- The claim of a version.
version-claim :
    (o : Option OwnershipClaim) (c : OwnershipClaim)
    → same_version (version_of o) (version_of (some c)) ≡ true
    → (b : OwnershipClaim) × (o ≡ some b)
      × (b.id ≡ c.id)
      × (b.token ≡ c.token)
      × (b.cname_target ≡ c.cname_target)
version-claim none c h = absurd (ground arith)
version-claim (some b) c h = (
  b,
  refl,
  ground arith,
  (text_eq_iff b.token c.token).0 (ground arith),
  (text_eq_iff b.cname_target c.cname_target).0 (ground arith),
)

-- If a live claim that is not verified is so after the worker has written what it observed, then the resolver found the value of
-- that very claim, at the TXT name of the live claim that the worker had loaded before the queries; both have one identifier,
-- token and target.
pub verified_claim_was_observed :
    (resolver : Resolver) (zone : Option Text) (queried : Domain) (now : Time) (d : Domain)
    (log : Log) (s : Domain × Log)
    → observed_row
        (ownership_outcome resolver queried)
        (routing_outcome resolver queried)
        zone
        queried
        now
        d
        log
      ≡ ok (some s)
    → claim_verified (active_claim d) ≡ false
    → claim_verified (active_claim s.0) ≡ true
    → (b : OwnershipClaim) × (c : OwnershipClaim) × (values : List Text) × (active_claim d ≡ some b)
      × (active_claim queried ≡ some c)
      × ((b.id ≡ c.id) × (b.token ≡ c.token) × (b.cname_target ≡ c.cname_target))
      × (resolver.txt c.txt_record_name ≡ answer values)
      × (any (λ v. text_eq (strip v) (txt_record_value b)) values ≡ true)
unfolding observed_row claim_version txt_record_value
verified_claim_was_observed resolver zone queried now d log s h fresh proved =
    let o = ownership_outcome resolver queried in
    let r = routing_outcome resolver queried in
    elim (Bool-cases (same_version (claim_version d) (claim_version queried))) [
      | inr f ↦ absurd (let e = rw (f, observed_row) at h in ground arith)
      | inl t ↦
          let (out, applied, rest) =
            >>=-ok (apply_dns_outcomes o r now d log) _ (rw (t, observed_row) at h) in
          let written : with_zone zone out.0 ≡ s.0 = ground arith in
          elim (Bool-cases (passing o)) [
            | inr f ↦
                let same : s.0.claims ≡ d.claims =
                  ap (λ (e : Domain). e.claims) (sym written)
                  ∙ with_zone-claims zone out.0
                  ∙ unproved-claims o r now d log out f applied in
                absurd (still_fresh d s.0 same fresh proved)
            | inl y ↦
                let (c, values, known, got, proof) =
                  (ownership_outcome-passing resolver queried).0 y in
                let (b, live, i, token, target) =
                  version-claim (active_claim d) c
                    (subst (λ v. same_version (claim_version d) (version_of v) ≡ true) known t) in
                (
                  b,
                  c,
                  values,
                  live,
                  known,
                  (i, token, target),
                  got,
                  subst
                      (λ (token : Text).
                        any (λ v. text_eq (strip v) (codes "custom-domain-verify=" ++ token)) values
                        ≡ true)
                      (sym token) proof,
                )
          ]
    ]
