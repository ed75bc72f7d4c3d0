-- ===== src/Checks/Worker.antt =====
-- `run_dns_checks` and `run_edge_checks`: the checks of one domain row, from the answers to the status.
use custom_domain.Common.{
  ℕ, ◌≡◌, refl, inl, inr, Bool, true, false, Option, some, List, [], ◌∷◌, arith, Text, Time,
  Bool-cases, Option-cases, is_some, any, text_eq, strip, member, ap,
}
use custom_domain.Errors.{Result, ok, is_ok_value}
use custom_domain.Model.{
  DomainStatus, CheckStatus, Application, OwnershipClaim, Domain, Log, is_deleted, active_claim,
  status_eq_iff, txt_record_value,
}
use custom_domain.Lifecycle.Status.{is_serveable}
use custom_domain.Lifecycle.Sound.{IsSound, SameIdentity}
use custom_domain.Lifecycle.Identity.{Reach-SameIdentity}
use custom_domain.Checks.Resolver.{Answer, answer, name_not_found, unavailable, Resolver}
use custom_domain.Checks.Outcomes.{
  Outcome, passing, compare_txt, txt_outcome, ownership_outcome, compare_chain, chain_outcome,
  routing_outcome, stale,
}
use custom_domain.Checks.Apply.{apply_dns_outcomes}
use custom_domain.Checks.Edge.{
  EdgeProber, certificate_authorized, certificate_outcome, origin_outcome, apply_edge_outcomes,
}
use custom_domain.Checks.Runs.{Decided, apply_dns_outcomes-Reach}
use custom_domain.Checks.Total.{apply_dns_outcomes_total}
use custom_domain.Checks.Observed.{ownership_outcome-passing}

unfoldable pub run_dns_checks : Resolver → Time → Domain → Log → Result (Domain × Log)
run_dns_checks resolver now d log =
    apply_dns_outcomes (ownership_outcome resolver d) (routing_outcome resolver d) now d log

unfoldable pub run_edge_checks :
    (ℕ → Text)
    → Option Application
    → EdgeProber
    → Bool
    → Time
    → Domain
    → Log
    → Result (Domain × Log)
run_edge_checks id_text application prober disable_https now d log =
    apply_edge_outcomes (certificate_outcome prober d disable_https now)
      (origin_outcome id_text application d (some prober)) now d log

abbrev pub pending_status : CheckStatus → Bool
pending_status CheckStatus.pending = true
pending_status _ = false

pub decided : (o : Outcome) → pending_status o.status ≡ false → Decided o
decided o h e = absurd (let q = ap pending_status e in ground arith)

compare_txt-decided :
    (c : OwnershipClaim) (d : Domain) (vs : List Text)
    → pending_status (compare_txt c d vs).status ≡ false
unfolding compare_txt
compare_txt-decided c d [] = refl
compare_txt-decided c d (v ∷ vs) =
    elim (Bool-cases (any (λ w. text_eq (strip w) (txt_record_value c)) (v ∷ vs))) [
      | inl t ↦ rw t refl
      | inr f ↦ elim (Bool-cases (any (λ w. member (strip w) (stale d.claims)) (v ∷ vs))) [
        | inl t ↦ rw (f, t) refl
        | inr g ↦ rw (f, g) refl
      ]
    ]

txt_outcome-decided :
    (c : OwnershipClaim) (d : Domain) (a : Answer (List Text))
    → pending_status (txt_outcome c d a).status ≡ false
unfolding txt_outcome
txt_outcome-decided c d name_not_found = refl
txt_outcome-decided c d unavailable = refl
txt_outcome-decided c d (answer vs) = compare_txt-decided c d vs

pub ownership_outcome-decided :
    (resolver : Resolver) (d : Domain)
    → pending_status (ownership_outcome resolver d).status ≡ false
unfolding ownership_outcome
ownership_outcome-decided resolver d = elim (Option-cases (active_claim d)) [
  | inl missing ↦ rw (pending_status, ownership_outcome, missing) refl
  | inr (c, found) ↦
      rw (pending_status, ownership_outcome, found)
        (txt_outcome-decided c d (resolver.txt c.txt_record_name))
]

chain_outcome-decided :
    (target : Text) (a : Answer (List Text))
    → pending_status (chain_outcome target a).status ≡ false
unfolding chain_outcome compare_chain
chain_outcome-decided target name_not_found = refl
chain_outcome-decided target unavailable = refl
chain_outcome-decided target (answer []) = refl
chain_outcome-decided target (answer (c ∷ cs)) = elim (Bool-cases (member target (c ∷ cs))) [
  | inl t ↦ rw t refl
  | inr f ↦ rw f refl
]

pub routing_outcome-decided :
    (resolver : Resolver) (d : Domain) → pending_status (routing_outcome resolver d).status ≡ false
unfolding routing_outcome
routing_outcome-decided resolver d = elim (Option-cases (active_claim d)) [
  | inl missing ↦ rw (pending_status, routing_outcome, missing) refl
  | inr (c, found) ↦
      rw (pending_status, routing_outcome, found) (chain_outcome-decided c.cname_target _)
]

pub passing-claimed :
    (resolver : Resolver) (d : Domain)
    → passing (ownership_outcome resolver d) ≡ true
    → is_some (active_claim d) ≡ true
passing-claimed resolver d h =
    let (c, _, found, _, _) = (ownership_outcome-passing resolver d).0 h in ap is_some found

-- Whatever the resolver answers, the DNS checks of a live sound row succeed, and leave a sound row with the same identity.
pub run_dns_checks-IsSound :
    (token_urlsafe : ℕ → ℕ → Text) (resolver : Resolver) (now : Time) (d : Domain) (log : Log)
    → IsSound d
    → is_deleted d ≡ false
    → (out : Domain × Log) × (run_dns_checks resolver now d log ≡ ok out)
      × IsSound out.0
      × SameIdentity d out.0
unfolding run_dns_checks
run_dns_checks-IsSound token_urlsafe resolver now d log s live =
    let o = ownership_outcome resolver d in
    let r = routing_outcome resolver d in
    let (out, done) =
      is_ok_value _ (apply_dns_outcomes_total o r now d log live (passing-claimed resolver d)) in
    let run =
      apply_dns_outcomes-Reach token_urlsafe o r now d log out
        (decided o (ownership_outcome-decided resolver d))
        (decided r (routing_outcome-decided resolver d)) done in
    let (sound, same) = Reach-SameIdentity token_urlsafe run s in (out, done, sound, same)

-- A domain that is served may have its certificate issued and renewed.
pub serveable_authorized :
    (a : Option Application) (d : Domain)
    → is_serveable a d ≡ true
    → certificate_authorized a d ≡ true
unfolding is_serveable certificate_authorized
serveable_authorized a d h = ground (arith, status_eq_iff d.status DomainStatus.ready)
