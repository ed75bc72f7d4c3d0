-- ===== src/Lifecycle/Events.antt =====
-- `record_event` of app/services/domains.py.
use custom_domain.Common.{
  ℕ, suc, ◌+◌, Option, none, some, List, [], ◌∷◌, ◌++◌, ◌==◌, ◌<◌, arith, leb, if◌then◌else◌, Time,
  max,
}
use custom_domain.Model.{Domain, DomainEvent, EventType, Payload, Log}
use custom_domain.Webhooks.Outbox.{enqueue_for_event}

-- `max(created_at)` over the events of a domain; `none` if there is none.
unfoldable pub latest : ℕ → List DomainEvent → Option Time
latest domain_id [] = none
latest domain_id (e ∷ es) =
    let rest = latest domain_id es in
    if e.domain_id == domain_id
    then elim rest [ none ↦ some e.created_at | some t ↦ some (max e.created_at t) ]
    else rest

-- The time stamp of a new event: past the domain's latest.
unfoldable pub next_stamp : Option Time → Time → Time
next_stamp none now = now
next_stamp (some last) now = if leb now last then last + 1 else now

unfoldable pub new_event : EventType → Payload → Time → Domain → Log → DomainEvent
unfolding latest next_stamp
new_event event_type payload now domain log = record {
  id = log.next_id;
  domain_id = domain.id;
  application_id = domain.application_id;
  event_type = event_type;
  payload = payload;
  created_at = next_stamp (latest domain.id log.events) now;
}

unfoldable pub record_event : EventType → Payload → Time → Domain → Log → Log
record_event event_type payload now domain log =
    let event = new_event event_type payload now domain log in
    enqueue_for_event domain event
      (record log { events = log.events ++ event ∷ []; next_id = suc log.next_id })

-- The identifiers that a log hands out only grow.
pub record_event-next_id :
    (event_type : EventType) (payload : Payload) (now : Time) (domain : Domain) (log : Log)
    → log.next_id < (record_event event_type payload now domain log).next_id
unfolding record_event enqueue_for_event
record_event-next_id event_type payload now domain log = ground arith
