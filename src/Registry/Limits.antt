-- ===== src/Registry/Limits.antt =====
-- app/services/limits.py, and the registration and recheck budgets of app/services/domains.py. The
-- locks serialise transactions, and the model runs one at a time.
use custom_domain.Common.{
  ℕ, ◌+◌, ◌-◌, Bool, not, ◌&&◌, Option, none, some, List, [], ◌∷◌, ◌==◌, ltb, leb, min, Time,
  seconds, hours, ceil_seconds, count, select,
}
use custom_domain.Errors.{Result, ok, ◌>>◌, raise_if, LimitScope, domain_limit_reached, rate_limit}
use custom_domain.Model.{Application, Domain, DomainEvent, EventType, event_eq, is_deleted}
use custom_domain.Lifecycle.Events.{latest}

-- The live domains of one application, or of the deployment.
unfoldable pub live_domains : Option ℕ → List Domain → ℕ
live_domains none rows = count (λ d. not (is_deleted d)) rows
live_domains (some application_id) rows =
    count (λ d. not (is_deleted d) && d.application_id == application_id) rows

abbrev pub enforce_one : LimitScope → Option ℕ → ℕ → Result (Unit {0})
enforce_one scope none live = ok tt
enforce_one scope (some limit) live =
    raise_if (leb limit live) (domain_limit_reached scope limit live)

-- `enforce`, given the value of MAX_DOMAINS.
unfoldable pub enforce : Option ℕ → Application → List Domain → Result (Unit {0})
enforce limit application rows =
    enforce_one LimitScope.application application.max_domains
      (live_domains (some application.id) rows)
    >> enforce_one LimitScope.deployment limit (live_domains none rows)

abbrev pub registration_window : Time
registration_window = hours 1

abbrev pub registration_max_per_window : ℕ
registration_max_per_window = 120

abbrev pub recheck_min_interval : Time
recheck_min_interval = seconds 60

abbrev pub recheck_window : Time
recheck_window = hours 1

abbrev pub recheck_max_per_window : ℕ
recheck_max_per_window = 60

-- The events of a type that an application caused after the start of the window.
abbrev pub in_window : ℕ → EventType → Time → Time → DomainEvent → Bool
in_window application_id t window now e =
    e.application_id == application_id && event_eq e.event_type t && ltb now (e.created_at + window)

-- `min(created_at)`
unfoldable pub oldest : List DomainEvent → Option Time
oldest [] = none
oldest (e ∷ es) =
    let rest = oldest es in
    elim rest [ none ↦ some e.created_at | some t ↦ some (min e.created_at t) ]

-- `math.ceil(wait)` in seconds.
abbrev pub wait_for : Option Time → Time → Time → ℕ
wait_for none window now = 60
wait_for (some t) window now = ceil_seconds (t + window - now)

-- At most `limit` events of a type in a window.
unfoldable pub enforce_window :
    ℕ → EventType → Time → ℕ → Time → List DomainEvent → Result (Unit {0})
enforce_window application_id t window limit now events =
    let recent = in_window application_id t window now in
    raise_if (leb limit (count recent events))
      (rate_limit (wait_for (oldest (select recent events)) window now))

unfoldable pub enforce_registration_limit :
    Application → Time → List DomainEvent → Result (Unit {0})
enforce_registration_limit application now events =
    enforce_window application.id EventType.domain_created registration_window
      registration_max_per_window now events

-- The recheck events of a domain.
abbrev pub rechecks : ℕ → DomainEvent → Bool
rechecks domain_id e = e.domain_id == domain_id && event_eq e.event_type EventType.recheck_requested

abbrev pub enforce_interval : Option Time → Time → Result (Unit {0})
enforce_interval none now = ok tt
enforce_interval (some last) now =
    raise_if (ltb now (last + recheck_min_interval))
      (rate_limit (ceil_seconds (last + recheck_min_interval - now)))

unfoldable pub enforce_recheck_limits : Domain → Time → List DomainEvent → Result (Unit {0})
enforce_recheck_limits d now events =
    enforce_interval (latest d.id (select (rechecks d.id) events)) now
    >> enforce_window d.application_id EventType.recheck_requested recheck_window
        recheck_max_per_window now events
