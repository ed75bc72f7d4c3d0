-- ===== src/Lifecycle/Stamps.antt =====
-- The order of a domain's events.
use custom_domain.Common.{
  ℕ, ◌<◌, ◌≤◌, ◌≡◌, inl, inr, none, some, List, [], ◌∷◌, ◌++◌, Time, arith, All, Option-cases,
}
use custom_domain.Model.{Domain, DomainEvent, EventType, Payload, Log}
use custom_domain.Webhooks.Outbox.{enqueue_for_event}
use custom_domain.Lifecycle.Events.{latest, next_stamp, new_event, record_event}

abbrev Before : ℕ → Time → DomainEvent → Type 0
Before domain_id bound e = e.domain_id ≡ domain_id → e.created_at < bound

latest-none :
    (domain_id bound : ℕ) (events : List DomainEvent)
    → latest domain_id events ≡ none
    → All (Before domain_id bound) events
unfolding latest
latest-none domain_id bound [] h = tt
latest-none domain_id bound (e ∷ es) h = elim (Option-cases (latest domain_id es)) [
  | inl missing ↦ (
    λ same. absurd (let q = rw (missing, latest) at h in ground arith),
    latest-none domain_id bound es missing,
  )
  | inr (t, found) ↦ absurd (let q = rw (found, latest) at h in ground arith)
]

latest-some :
    (domain_id bound : ℕ) (events : List DomainEvent) {last : Time}
    → latest domain_id events ≡ some last
    → last < bound
    → All (Before domain_id bound) events
unfolding latest
latest-some domain_id bound [] h b = cc
latest-some domain_id bound (e ∷ es) {last} h b = elim (Option-cases (latest domain_id es)) [
  | inl missing ↦ (
    let q = rw (missing, latest) at h in λ same. ground arith,
    latest-none domain_id bound es missing,
  )
  | inr (t, found) ↦
      let q = rw (found, latest) at h in
      (λ same. ground arith, latest-some domain_id bound es found (ground arith))
]

stamp-Before :
    (domain_id : ℕ) (now : Time) (events : List DomainEvent)
    → All (Before domain_id (next_stamp (latest domain_id events) now)) events
unfolding next_stamp
stamp-Before domain_id now events = elim (Option-cases (latest domain_id events)) [
  | inl missing ↦ latest-none domain_id _ events missing
  | inr (last, found) ↦ latest-some domain_id _ events found (rw found (ground arith))
]

enqueue_for_event-events :
    (d : Domain) (e : DomainEvent) (log : Log) → (enqueue_for_event d e log).events ≡ log.events
unfolding enqueue_for_event
enqueue_for_event-events d e log = ground arith

-- An event that is recorded is the last of the log, not before now, and strictly after every earlier event of its domain,
-- however the clock moves.
pub record_event-after :
    (event_type : EventType) (payload : Payload) (now : Time) (d : Domain) (log : Log)
    → (e : DomainEvent) × ((record_event event_type payload now d log).events
        ≡ log.events ++ e ∷ [])
      × (now ≤ e.created_at)
      × All (λ f. f.domain_id ≡ d.id → f.created_at < e.created_at) log.events
unfolding record_event new_event enqueue_for_event next_stamp
record_event-after event_type payload now d log = (
  new_event event_type payload now d log,
  enqueue_for_event-events d _ _,
  elim (Option-cases (latest d.id log.events)) [
    | inl missing ↦ rw missing (omega arith)
    | inr (last, found) ↦ rw found (ground arith)
  ],
  stamp-Before d.id now log.events,
)
