-- ===== src/Webhooks/Outbox.antt =====
-- app/services/webhooks.py: the deliveries that an event causes, in the same transaction.
use custom_domain.Common.{
  ℕ, suc, ◌+◌, Bool, false, ◌&&◌, ◌||◌, Option, none, some, List, [], ◌∷◌, ◌++◌, ◌==◌, select,
  length,
}
use custom_domain.Model.{
  Domain, DomainEvent, DomainStatus, EventType, Reason, Payload, WebhookType, WebhookSubscription,
  WebhookPayload, WebhookDelivery, Log, is_active,
}

abbrev pub webhook_rank : WebhookType → ℕ
webhook_rank WebhookType.ready = 0
webhook_rank WebhookType.attention_required = 1
webhook_rank WebhookType.recovered = 2
webhook_rank WebhookType.deleted = 3

abbrev pub webhook_eq : WebhookType → WebhookType → Bool
webhook_eq a b = webhook_rank a == webhook_rank b

-- The webhook type of a change of status, by its target and reason.
abbrev pub status_webhook : DomainStatus → Option Reason → Option WebhookType
status_webhook DomainStatus.ready (some Reason.recovered) = some WebhookType.recovered
status_webhook DomainStatus.ready _ = some WebhookType.ready
status_webhook DomainStatus.attention_required _ = some WebhookType.attention_required
status_webhook _ _ = none

abbrev pub payload_webhook : EventType → Payload → Option WebhookType
payload_webhook EventType.status_changed (Payload.status_changed from to reason) =
    status_webhook to reason
payload_webhook EventType.domain_deleted _ = some WebhookType.deleted
payload_webhook _ _ = none

unfoldable pub webhook_event_type : DomainEvent → Option WebhookType
webhook_event_type event = payload_webhook event.event_type event.payload

-- `webhook_type in (s.events or [])`
abbrev pub wants : WebhookType → List WebhookType → Bool
wants t [] = false
wants t (e ∷ es) = webhook_eq t e || wants t es

-- The subscriptions that want an event of the application.
unfoldable pub wanted : ℕ → WebhookType → List WebhookSubscription → List WebhookSubscription
unfolding is_active
wanted application_id t subscriptions =
    select (λ s. s.application_id == application_id && is_active s && wants t s.events)
      subscriptions

unfoldable pub build_payload : DomainEvent → WebhookType → Domain → WebhookPayload
build_payload event t domain = record {
  id = event.id;
  webhook_type = t;
  created_at = event.created_at;
  domain = domain;
}

abbrev pub new_delivery :
    ℕ → Domain → DomainEvent → WebhookType → WebhookSubscription → WebhookDelivery
new_delivery id domain event t subscription = record {
  id = id;
  subscription_id = subscription.id;
  application_id = domain.application_id;
  event_id = event.id;
  event_type = t;
  domain_id = domain.id;
  payload = build_payload event t domain;
  attempts = 0;
  next_attempt_at = some event.created_at;
  delivered_at = none;
  abandoned_at = none;
  last_attempt_at = none;
  last_status = none;
  last_error = none;
}

-- The loop over `wanted`: a delivery for each, under the next identifier.
unfoldable pub deliveries_for :
    ℕ → Domain → DomainEvent → WebhookType → List WebhookSubscription → List WebhookDelivery
deliveries_for id domain event t [] = []
deliveries_for id domain event t (s ∷ ss) =
    new_delivery id domain event t s ∷ deliveries_for (suc id) domain event t ss

abbrev pub enqueue_all : Domain → DomainEvent → WebhookType → List WebhookSubscription → Log → Log
enqueue_all domain event t subscriptions log = record log {
  deliveries = log.deliveries ++ deliveries_for log.next_id domain event t subscriptions;
  next_id = log.next_id + length subscriptions;
}

unfoldable pub enqueue_for_event : Domain → DomainEvent → Log → Log
enqueue_for_event domain event log = elim (webhook_event_type event) [
  | none ↦ log
  | some t ↦ enqueue_all domain event t (wanted domain.application_id t log.subscriptions) log
]
