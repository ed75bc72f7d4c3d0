-- ===== src/Checks/Fast.antt =====
-- `apply_dns_outcomes` of app/services/dns_checks.py while a link of Domain Connect is fresh.
use custom_domain.Common.{
  ◌+◌, ◌≤◌, ◌<◌, ◌≡◌, refl, ap, ◌∙◌, inl, inr, Bool, true, false, ◌&&◌, ◌⊎◌, Option, some, List, [],
  ◌∷◌, first, Time, seconds, minutes, Text, arith, Bool-cases, min,
}
use custom_domain.Errors.{ok, >>=-ok}
use custom_domain.Model.{
  DomainStatus, CheckType, Reason, DomainCheck, Domain, Log, check, type_eq, type_eq_iff,
}
use custom_domain.Lifecycle.Status.{
  transition_status, record_check, demote, put_check, observed_check,
}
use custom_domain.Lifecycle.Claims.{mark_claim_verified}
use custom_domain.Checks.Outcomes.{Outcome, passing}
use custom_domain.Checks.Schedule.{schedule_next, next_attempt, fast_recheck_due}
use custom_domain.Checks.Apply.{
  record_outcome, degrade, dns_rules, verify_pending, promote, apply_dns_outcomes,
}
use custom_domain.Checks.Pace.{schedule_next_lem}

-- The row of a check that one round of the loop writes.
abbrev written : Bool → CheckType → Outcome → Time → Domain → DomainCheck
written fast t o now d =
    let next = schedule_next (check t d) o now in
    observed_check t o.status o.error_code (some next.1) now (some (next_attempt fast next.0 o now))

transition_status-checks :
    (status : DomainStatus) (reason : Option Reason) (now : Time) (d : Domain) (log : Log)
    (out : Domain × Log)
    → transition_status status reason now d log ≡ ok out
    → out.0.checks ≡ d.checks
unfolding transition_status
transition_status-checks status reason now d log out h = ground arith

record_outcome-checks :
    (fast : Bool) (t : CheckType) (o : Outcome) (now : Time) (s out : Domain × Log)
    → record_outcome fast t o now s ≡ ok out
    → out.0.checks ≡ put_check (written fast t o now s.0) s.0.checks
unfolding record_outcome record_check demote transition_status
record_outcome-checks fast t o now (d, log) out h = ground arith

mark_claim_verified-checks :
    (method : Text) (now : Time) (d : Domain) (log : Log) (out : Domain × Log)
    → mark_claim_verified method now d log ≡ ok out
    → out.0.checks ≡ d.checks
unfolding mark_claim_verified
mark_claim_verified-checks method now d log out h = ground arith

promote-checks :
    (now : Time) (s out : Domain × Log) → promote now s ≡ ok out → out.0.checks ≡ s.0.checks
unfolding promote transition_status
promote-checks now (d, log) out h = ground arith

verify_pending-checks :
    (now : Time) (s out : Domain × Log) → verify_pending now s ≡ ok out → out.0.checks ≡ s.0.checks
unfolding verify_pending mark_claim_verified
verify_pending-checks now (d, log) out h = ground arith

degrade-checks :
    (o : Outcome) (since now : Time) (s out : Domain × Log)
    → degrade o since now s ≡ ok out
    → out.0.checks ≡ s.0.checks
unfolding degrade transition_status
degrade-checks o since now (d, log) out h = ground arith

dns_rules-checks :
    (ownership routing : Outcome) (since now : Time) (s out : Domain × Log)
    → dns_rules ownership routing since now s ≡ ok out
    → out.0.checks ≡ s.0.checks
unfolding dns_rules
dns_rules-checks ownership routing since now s out h =
    elim (Bool-cases (passing ownership && passing routing)) [
      | inl t ↦
          let (s₁, verified, rest) = >>=-ok (verify_pending now s) _ (rw t at h) in
          promote-checks now s₁ out rest ∙ verify_pending-checks now s s₁ verified
      | inr f ↦ degrade-checks ownership since now s out (rw f at h)
    ]

abbrev found : CheckType → List DomainCheck → Option DomainCheck
found t cs = first (λ c. type_eq c.check_type t) cs

found-put_check :
    (c : DomainCheck) (cs : List DomainCheck) → found c.check_type (put_check c cs) ≡ some c
unfolding put_check
found-put_check c [] = rw ((type_eq_iff c.check_type c.check_type).1 refl) refl
found-put_check c (d ∷ ds) = elim (Bool-cases (type_eq d.check_type c.check_type)) [
  | inl t ↦ rw (t, (type_eq_iff c.check_type c.check_type).1 refl) refl
  | inr f ↦ rw (f, f) (found-put_check c ds)
]

-- A check is due again half a minute after an instant.
abbrev pub Soon : CheckType → Time → Domain → Type 0
Soon t now d =
    (c : DomainCheck) × (check t d ≡ some c) × (c.next_check_at ≡ some (now + seconds 30))

found-put_check_ne :
    (t : CheckType) (c : DomainCheck) (cs : List DomainCheck)
    → type_eq c.check_type t ≡ false
    → found t (put_check c cs) ≡ found t cs
unfolding put_check
found-put_check_ne t c [] h = rw h refl
found-put_check_ne t c (d ∷ ds) h = ground (arith, found-put_check_ne t c ds h)

written-type :
    (fast : Bool) (t : CheckType) (o : Outcome) (now : Time) (d : Domain)
    → (written fast t o now d).check_type ≡ t
unfolding observed_check
written-type fast t o now d = refl

-- A failure is taken up again after half a minute, which is less than any backoff.
written-soon :
    (t : CheckType) (o : Outcome) (now : Time) (d : Domain)
    → passing o ≡ false
    → (written true t o now d).next_check_at ≡ some (now + seconds 30)
unfolding observed_check next_attempt
written-soon t o now d h =
    let later = ((schedule_next_lem (check t d) o now).1 h).0 in
    let soonest : min (schedule_next (check t d) o now).0 (now + seconds 30) ≡ now + seconds 30 =
      omega arith in
    rw (h, soonest) refl

-- Within half an hour after a link of Domain Connect was issued, once the outcomes are applied, each of the two DNS checks that does
-- not pass is due again exactly thirty seconds later.
pub apply_dns_outcomes-Soon :
    (ownership routing : Outcome) (started now : Time) (d : Domain) (log : Log) {out : Domain × Log}
    → d.connect_started_at ≡ some started
    → started ≤ now
    → now < started + minutes 30
    → apply_dns_outcomes ownership routing now d log ≡ ok out
    → ((passing ownership ≡ true) ⊎ Soon CheckType.ownership now out.0)
      × ((passing routing ≡ true) ⊎ Soon CheckType.routing now out.0)
unfolding apply_dns_outcomes fast_recheck_due check observed_check
apply_dns_outcomes-Soon ownership routing started now d log {out} issued from until h =
    let fast : fast_recheck_due d now ≡ true = rw issued (ground arith) in
    let (s₁, first_round, more) =
      >>=-ok (record_outcome true CheckType.ownership ownership now (d, log)) _ (rw fast at h) in
    let (s₂, second_round, rest) =
      >>=-ok (record_outcome true CheckType.routing routing now s₁) _ more in
    let own =
      record_outcome-checks true CheckType.ownership ownership now (d, log) s₁ first_round in
    let route = record_outcome-checks true CheckType.routing routing now s₁ s₂ second_round in
    let kept = dns_rules-checks ownership routing _ now s₂ out rest in
    let c = written true CheckType.ownership ownership now d in
    let c' = written true CheckType.routing routing now s₁.0 in
    let owned : check CheckType.ownership out.0 ≡ some c =
      ap (found CheckType.ownership) (kept ∙ route)
      ∙ found-put_check_ne CheckType.ownership c' s₁.0.checks refl
      ∙ ap (found CheckType.ownership) own
      ∙ found-put_check c d.checks in
    let routed : check CheckType.routing out.0 ≡ some c' =
      ap (found CheckType.routing) (kept ∙ route) ∙ found-put_check c' s₁.0.checks in
    (
      elim (Bool-cases (passing ownership)) [
        | inl t ↦ inl t
        | inr f ↦ inr (c, owned, written-soon CheckType.ownership ownership now d f)
      ],
      elim (Bool-cases (passing routing)) [
        | inl t ↦ inl t
        | inr f ↦ inr (c', routed, written-soon CheckType.routing routing now s₁.0 f)
      ],
    )
