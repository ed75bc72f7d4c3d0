-- ===== src/Tests/Observations.antt =====
-- The theorems on checks at concrete answers.
use custom_domain.Common.{
  ◌+◌, ◌≡◌, ◌↔◌, ◌⊎◌, refl, true, false, some, List, [], ◌∷◌, Text, codes, minutes, any, text_eq,
  strip, arith,
}
use custom_domain.Errors.{ok, is_ok, is_ok_value}
use custom_domain.Model.{
  CheckType, OwnershipClaim, Domain, Log, is_deleted, active_claim, txt_record_value,
}
use custom_domain.Lifecycle.Status.{is_serveable}
use custom_domain.Lifecycle.Sound.{IsSound, SameIdentity}
use custom_domain.Checks.Resolver.{answer, Resolver, follow, cname_chain}
use custom_domain.Checks.Outcomes.{
  Outcome, passing, failure, success, ownership_outcome, routing_outcome, chain_outcome,
  compare_chain,
}
use custom_domain.Checks.Apply.{apply_dns_outcomes}
use custom_domain.Checks.Edge.{apply_edge_outcomes}
use custom_domain.Checks.Total.{apply_dns_outcomes_total, apply_edge_outcomes_total}
use custom_domain.Checks.Observed.{Leads, ownership_outcome-passing, routing_outcome-passing}
use custom_domain.Checks.Fast.{Soon, apply_dns_outcomes-Soon}
use custom_domain.Checks.Failing.{failing_dns_stops_service}
use custom_domain.Checks.Worker.{run_dns_checks, run_dns_checks-IsSound}
use custom_domain.Tests.Data.{draw_token, now, app, empty_log, row, row-IsSound}

-- Every name is a CNAME for the edge, and every TXT name holds the proof.
abbrev pub resolver : Resolver
resolver = record {
  txt = λ name. answer ((codes " custom-domain-verify=t0k3n") ∷ []);
  cname = λ name. answer (some (codes "edge.acme.net"));
  has_address = λ name. answer false;
  ns = λ name. answer [];
}

abbrev lost : Outcome
lost = failure (codes "txt_record_not_found") []

run_dns_checks-IsSound_example :
    (out : Domain × Log) × (run_dns_checks resolver now row empty_log ≡ ok out)
    × IsSound out.0
    × SameIdentity row out.0
unfolding is_deleted
run_dns_checks-IsSound_example =
    run_dns_checks-IsSound draw_token resolver now row empty_log row-IsSound refl

failed_run :
    (out : Domain × Log) × (apply_dns_outcomes lost (success []) now row empty_log ≡ ok out)
unfolding is_deleted
failed_run =
    is_ok_value (apply_dns_outcomes lost (success []) now row empty_log)
      (apply_dns_outcomes_total lost (success []) now row empty_log refl (λ h. cc))

failing_dns_stops_service_example : is_serveable (some app) failed_run.0.0 ≡ false
failing_dns_stops_service_example =
    failing_dns_stops_service (some app) lost (success []) now row empty_log failed_run.0 refl
      failed_run.1

ownership_outcome-passing_example : (passing (ownership_outcome resolver row) ≡ true) ↔ (
    (claim : OwnershipClaim) × (values : List Text) × (active_claim row ≡ some claim)
    × (resolver.txt claim.txt_record_name ≡ answer values)
    × (any (λ v. text_eq (strip v) (txt_record_value claim)) values ≡ true))
ownership_outcome-passing_example = ownership_outcome-passing resolver row

routed : passing (routing_outcome resolver row) ≡ true
unfolding routing_outcome active_claim cname_chain follow chain_outcome compare_chain
routed = refl

routing_outcome-passing_example :
    (claim : OwnershipClaim) × (active_claim row ≡ some claim)
    × Leads resolver 8 row.hostname claim.cname_target
routing_outcome-passing_example = routing_outcome-passing resolver row routed

-- The row, a minute after a link was issued for it.
abbrev linked : Domain
linked = record row { connect_started_at = some now }

rechecking :
    (out : Domain × Log) × (apply_dns_outcomes lost lost (now + minutes 1) linked empty_log
      ≡ ok out)
unfolding is_deleted
rechecking =
    is_ok_value (apply_dns_outcomes lost lost (now + minutes 1) linked empty_log)
      (apply_dns_outcomes_total lost lost (now + minutes 1) linked empty_log refl (λ h. cc))

apply_dns_outcomes-Soon_example :
    ((passing lost ≡ true) ⊎ Soon CheckType.ownership (now + minutes 1) rechecking.0.0)
    × ((passing lost ≡ true) ⊎ Soon CheckType.routing (now + minutes 1) rechecking.0.0)
apply_dns_outcomes-Soon_example =
    apply_dns_outcomes-Soon lost lost now (now + minutes 1) linked empty_log refl (omega arith)
      (omega arith) rechecking.1

apply_edge_outcomes_total_example :
    is_ok (apply_edge_outcomes (success []) lost now row empty_log) ≡ true
unfolding is_deleted
apply_edge_outcomes_total_example =
    apply_edge_outcomes_total (success []) lost now row empty_log refl
