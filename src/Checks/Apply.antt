-- ===== src/Checks/Apply.antt =====
-- `apply_dns_outcomes` of app/services/dns_checks.py.
use custom_domain.Common.{
  ◌+◌, Bool, false, not, ◌&&◌, ◌||◌, Option, none, some, leb, Time, codes, if◌then◌else◌,
}
use custom_domain.Errors.{Result, ok, ◌>>=◌}
use custom_domain.Model.{
  DomainStatus, CheckType, Reason, OwnershipClaim, Domain, Log, status_eq, is_pending_claim,
  active_claim, check,
}
use custom_domain.Lifecycle.Status.{checks_passing, transition_status, record_check, claim_verified}
use custom_domain.Lifecycle.Claims.{mark_claim_verified}
use custom_domain.Checks.Outcomes.{Outcome, passing}
use custom_domain.Checks.Schedule.{
  schedule_next, next_attempt, fast_recheck_due, ownership_loss_grace, previous_failing_since,
  previous_details,
}

-- One round of the loop over the two checks.
unfoldable pub record_outcome :
    Bool → CheckType → Outcome → Time → Domain × Log → Result (Domain × Log)
record_outcome fast t outcome now (d, log) =
    let (next_at, details) = schedule_next (check t d) outcome now in
    record_check t outcome.status outcome.error_code (some details) now
      (some (next_attempt fast next_at outcome now)) d log

abbrev pub claim_pending : Option OwnershipClaim → Bool
claim_pending none = false
claim_pending (some c) = is_pending_claim c.status

unfoldable pub verify_pending : Time → Domain × Log → Result (Domain × Log)
verify_pending now (d, log) =
    if claim_pending (active_claim d)
    then mark_claim_verified (codes "dns_txt") now d log
    else ok (d, log)

-- The statuses that both checks passing leads to.
unfoldable pub promote : Time → Domain × Log → Result (Domain × Log)
promote now (d, log) =
    if status_eq d.status DomainStatus.pending_dns || status_eq d.status DomainStatus.suspended
    then transition_status DomainStatus.provisioning (some Reason.dns_verified) now d log
    else if status_eq d.status DomainStatus.attention_required && checks_passing d
    then transition_status DomainStatus.ready (some Reason.recovered) now d log
    else ok (d, log)

-- The statuses that a failing check leads to; `since` is what `schedule_next` wrote for the ownership check.
unfoldable pub degrade : Outcome → Time → Time → Domain × Log → Result (Domain × Log)
degrade ownership since now (d, log) =
    let failed = if not (passing ownership) then CheckType.ownership else CheckType.routing in
    if status_eq d.status DomainStatus.provisioning
    then transition_status DomainStatus.pending_dns (some (Reason.check_failed failed)) now d log
    else if status_eq d.status DomainStatus.attention_required
        && not (passing ownership)
        && claim_verified (active_claim d)
    then (if leb (since + ownership_loss_grace) now
        then transition_status DomainStatus.suspended (some Reason.ownership_lost) now d log
        else ok (d, log))
    else ok (d, log)

unfoldable pub dns_rules : Outcome → Outcome → Time → Time → Domain × Log → Result (Domain × Log)
dns_rules ownership routing since now s =
    if passing ownership && passing routing
    then verify_pending now s >>= promote now
    else degrade ownership since now s

unfoldable pub apply_dns_outcomes : Outcome → Outcome → Time → Domain → Log → Result (Domain × Log)
apply_dns_outcomes ownership routing now d log =
    let fast = fast_recheck_due d now in
    let since = previous_failing_since (previous_details (check CheckType.ownership d)) now in
    do
      s₁ ← record_outcome fast CheckType.ownership ownership now (d, log)
      s₂ ← record_outcome fast CheckType.routing routing now s₁
      dns_rules ownership routing since now s₂
