-- ===== src/Tests/Workers.antt =====
-- The theorems on the check worker and on the owners of hostnames at concrete data.
use custom_domain.Common.{
  ℕ, Bool, ◌+◌, ◌≡◌, refl, true, false, none, some, List, [], ◌∷◌, Text, codes, seconds, hours,
  arith, any, text_eq, strip,
}
use custom_domain.Errors.{ok}
use custom_domain.Model.{
  ClaimStatus, DomainStatus, OwnershipClaim, Domain, Log, active_claim, is_deleted,
  txt_record_value, check,
}
use custom_domain.Lifecycle.Status.{
  claim_verified, transition_status, record_check, demote, checks_passing, by_type, put_check,
  observed_check,
}
use custom_domain.Lifecycle.Claims.{mark_claim_verified, put_live_claim}
use custom_domain.Registry.Sound.{IsRegistry}
use custom_domain.Registry.Steps.{claim}
use custom_domain.Registry.Refinement.{ownership, Moves, step_refines}
use custom_domain.Checks.Resolver.{answer, cname_chain, follow}
use custom_domain.Checks.Outcomes.{
  ownership_outcome, routing_outcome, txt_outcome, compare_txt, chain_outcome, compare_chain,
}
use custom_domain.Checks.Schedule.{schedule_next, next_attempt}
use custom_domain.Checks.Apply.{
  apply_dns_outcomes, record_outcome, dns_rules, verify_pending, promote,
}
use custom_domain.Lifecycle.Events.{record_event}
use custom_domain.Webhooks.Outbox.{enqueue_for_event}
use custom_domain.Checks.Edge.{EdgeProber, probe_failed}
use custom_domain.Checks.Leasing.{lease_domain, due_check_types, check_due, claim_version}
use custom_domain.Checks.Process.{Point, World, observed_row, run_due_checks}
use custom_domain.Checks.ProcessLaws.{run_due_checks-IsRegistry}
use custom_domain.Checks.Leases.{lease_exclusive}
use custom_domain.Checks.Current.{verified_claim_was_observed}
use custom_domain.Tests.Data.{
  libs, draw_token, now, app, empty, empty-IsRegistry, empty_log, hostname, row, served,
  served-IsRegistry,
}
use custom_domain.Tests.Domains.{claiming}
use custom_domain.Tests.Observations.{resolver}

step_refines_example : Moves (some 1) (ownership empty) (ownership claiming.0.1)
step_refines_example =
    step_refines libs draw_token empty-IsRegistry
      (claim (some 5) app hostname (codes "ws") none now claiming.0 claiming.1)

lease_exclusive_example :
    let later = now + hours 7 in
    let types = due_check_types 4 later served in
    (lease_domain 4 (later + seconds 90) types false (lease_domain 4 later types false served).1).0
    ≡ false
unfolding lease_domain due_check_types check_due
lease_exclusive_example =
    lease_exclusive 4 (now + hours 7) (now + hours 7 + seconds 90) served served-IsRegistry
      (omega arith) refl

abbrev prober : EdgeProber
prober = record {
  probe = λ name. probe_failed (codes "edge_unreachable");
  probe_workspace = λ name. probe_failed (codes "edge_unreachable");
}

-- The row is loaded, and the session of the worker breaks while it is read again.
abbrev broken : Point → Bool
broken Point.reading = true
broken _ = false

-- No other session writes while the worker runs.
abbrev calm : ℕ → World
calm id = record {
  clock = λ n. now + hours 7;
  others = λ n store. store;
  resolver = resolver;
  prober = prober;
  zone = none;
  disable_https = false;
  raises = broken;
}

run_due_checks-IsRegistry_example :
    IsRegistry (run_due_checks (λ n. []) calm (now + hours 7) 50 served).1
run_due_checks-IsRegistry_example =
    run_due_checks-IsRegistry (λ n. []) calm (now + hours 7) 50 served (λ i n store r. r)
      served-IsRegistry

-- A row that waits for its first proof.
abbrev waiting : Domain
waiting = record row {
  status = DomainStatus.pending_dns;
  claims =
      record {
        id = 5;
        txt_record_name = codes "_custom-domain-challenge.app.acme.com";
        token = codes "t0k3n";
        cname_target = codes "edge.acme.net";
        status = ClaimStatus.pending;
        verification_method = none;
        verified_at = none;
        revoked_at = none;
        created_at = now;
      }
      ∷ [];
}

proving :
    (s : Domain × Log) × (observed_row
        (ownership_outcome resolver waiting)
        (routing_outcome resolver waiting)
        none
        waiting
        now
        waiting
        empty_log
      ≡ ok (some s))
    × (claim_verified (active_claim s.0) ≡ true)
unfolding observed_row claim_version active_claim ownership_outcome routing_outcome txt_outcome
    compare_txt chain_outcome compare_chain cname_chain follow apply_dns_outcomes record_outcome
    record_check demote transition_status dns_rules verify_pending promote mark_claim_verified
    checks_passing by_type is_deleted check put_check observed_check record_event enqueue_for_event
    schedule_next next_attempt txt_record_value strip put_live_claim
proving = (_, refl, refl)

verified_claim_was_observed_example :
    (b : OwnershipClaim) × (c : OwnershipClaim) × (values : List Text) × (active_claim waiting
      ≡ some b)
    × (active_claim waiting ≡ some c)
    × ((b.id ≡ c.id) × (b.token ≡ c.token) × (b.cname_target ≡ c.cname_target))
    × (resolver.txt c.txt_record_name ≡ answer values)
    × (any (λ v. text_eq (strip v) (txt_record_value b)) values ≡ true)
unfolding active_claim
verified_claim_was_observed_example =
    verified_claim_was_observed resolver none waiting now waiting empty_log proving.0 proving.1 refl
      proving.2
