-- ===== src/Lifecycle/Status.antt =====
-- app/services/domains.py: the statuses of a domain, its checks and its claims, on one row and the
-- log. `session.flush`, metrics and logging have no effect on the rows.
use custom_domain.Common.{
  Bool, true, false, not, ◌&&◌, ◌||◌, Option, none, some, List, [], ◌∷◌, all, Text, Time,
  if◌then◌else◌,
}
use custom_domain.Errors.{Result, ok, err, ◌>>◌, raise_if, invalid_status_transition}
use custom_domain.Model.{
  DomainStatus, CheckType, CheckStatus, EventType, Reason, Details, Application, OwnershipClaim,
  DomainCheck, Domain, Payload, Log, status_eq, type_eq, is_active_status, is_verified_claim,
  is_passing, is_failing, is_deleted, active_claim, check,
}
use custom_domain.Lifecycle.Events.{record_event}

-- ALLOWED_TRANSITIONS[from], asked for `to`.
abbrev pub allowed : DomainStatus → DomainStatus → Bool
allowed DomainStatus.pending_dns DomainStatus.ready = false
allowed DomainStatus.pending_dns DomainStatus.pending_dns = false
allowed DomainStatus.pending_dns _ = true
allowed DomainStatus.provisioning DomainStatus.provisioning = false
allowed DomainStatus.provisioning _ = true
allowed DomainStatus.ready DomainStatus.ready = false
allowed DomainStatus.ready DomainStatus.provisioning = false
allowed DomainStatus.ready _ = true
allowed DomainStatus.attention_required DomainStatus.attention_required = false
allowed DomainStatus.attention_required _ = true
allowed DomainStatus.suspended DomainStatus.pending_dns = true
allowed DomainStatus.suspended DomainStatus.provisioning = true
allowed DomainStatus.suspended DomainStatus.deleting = true
allowed DomainStatus.suspended _ = false
allowed DomainStatus.deleting _ = false

abbrev pub reset_on_reissue : DomainStatus → Bool
reset_on_reissue DomainStatus.provisioning = true
reset_on_reissue DomainStatus.ready = true
reset_on_reissue DomainStatus.attention_required = true
reset_on_reissue _ = false

abbrev pub check_types : List CheckType
check_types =
    CheckType.ownership ∷ CheckType.routing ∷ CheckType.certificate ∷ CheckType.origin ∷ []

-- `by_type[check_type]`: the last check of the type, as a dict comprehension keeps it.
unfoldable pub by_type : CheckType → List DomainCheck → Option DomainCheck
by_type t [] = none
by_type t (c ∷ cs) =
    let rest = by_type t cs in
    elim rest [ some d ↦ some d | none ↦ if type_eq c.check_type t then some c else none ]

abbrev pub has_passed : Option DomainCheck → Bool
has_passed none = false
has_passed (some c) = is_passing c.status

unfoldable pub checks_passing : Domain → Bool
checks_passing d = all (λ t. has_passed (by_type t d.checks)) check_types

abbrev pub claim_verified : Option OwnershipClaim → Bool
claim_verified none = false
claim_verified (some c) = is_verified_claim c.status

abbrev pub application_active : Option Application → Bool
application_active none = false
application_active (some a) = is_active_status a.status

-- `is_serveable`, given the application that the row refers to.
unfoldable pub is_serveable : Option Application → Domain → Bool
is_serveable application d =
    if is_deleted d || not (status_eq d.status DomainStatus.ready)
    then false
    else if not (application_active application)
    then false
    else if not (claim_verified (active_claim d))
    then false
    else checks_passing d

abbrev pub ready_allowed : DomainStatus → Domain → Result (Unit {0})
ready_allowed DomainStatus.ready d = do
  raise_if (not (claim_verified (active_claim d))) invalid_status_transition
  raise_if (not (checks_passing d)) invalid_status_transition
ready_allowed _ d = ok tt

unfoldable pub transition_status :
    DomainStatus → Option Reason → Time → Domain → Log → Result (Domain × Log)
transition_status new_status reason now d log =
    let moved = record d { status = new_status } in
    if is_deleted d
    then err invalid_status_transition
    else if status_eq new_status d.status
    then ok (d, log)
    else if not (allowed d.status new_status)
    then err invalid_status_transition
    else (ready_allowed new_status d
        >> ok (
          moved,
          record_event EventType.status_changed (Payload.status_changed d.status new_status reason)
              now moved log,
        ))

-- Writes the check of a type, the first one found or a new one.
unfoldable pub put_check : DomainCheck → List DomainCheck → List DomainCheck
put_check c [] = c ∷ []
put_check c (d ∷ ds) = if type_eq d.check_type c.check_type then c ∷ ds else d ∷ put_check c ds

abbrev pub previous_status : Option DomainCheck → Option CheckStatus
previous_status none = none
previous_status (some c) = some c.status

-- The row of a check as `record_check` leaves it; only a failing check keeps an error code.
unfoldable pub observed_check :
    CheckType → CheckStatus → Option Text → Option Details → Time → Option Time → DomainCheck
observed_check t status error_code details observed_at next_check_at = record {
  check_type = t;
  status = status;
  error_code = if is_failing status then error_code else none;
  details = details;
  observed_at = some observed_at;
  next_check_at = next_check_at;
}

abbrev pub with_check : DomainCheck → Domain → Domain
with_check c d = record d { checks = put_check c d.checks }

-- A ready domain with a failing check is no longer ready.
unfoldable pub demote : CheckType → CheckStatus → Time → Domain → Log → Result (Domain × Log)
demote t status observed_at d log =
    if is_failing status && status_eq d.status DomainStatus.ready
    then transition_status DomainStatus.attention_required (some (Reason.check_failed t))
        observed_at d log
    else ok (d, log)

unfoldable pub record_check :
    CheckType
    → CheckStatus
    → Option Text
    → Option Details
    → Time
    → Option Time
    → Domain
    → Log
    → Result (Domain × Log)
record_check t status error_code details observed_at next_check_at d log =
    let c = observed_check t status error_code details observed_at next_check_at in
    demote t status observed_at (with_check c d) (
      record_event EventType.check_updated
        (Payload.check_updated t (previous_status (check t d)) status c.error_code) observed_at
        (with_check c d) log)
