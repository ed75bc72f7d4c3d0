-- ===== src/Model/Webhooks.antt =====
-- app/models/webhook.py, and the part of the session that events and webhooks are written to.
use custom_domain.Common.{ℕ, Bool, List, Option, Text, Time, is_none}
use custom_domain.Model.Domains.{Domain, DomainEvent}

-- WEBHOOK_EVENT_TYPES of app/services/webhooks.py.
pub data WebhookType : Type 0 where
  ready attention_required recovered deleted : WebhookType

pub record WebhookSubscription : Type 0 where
  pub id : ℕ
  pub application_id : ℕ
  pub url : Text
  pub events : List WebhookType
  pub secret : Text
  pub previous_secret : Option Text
  pub previous_secret_expires_at : Option Time
  pub revoked_at : Option Time

unfoldable pub is_active : WebhookSubscription → Bool
is_active s = is_none s.revoked_at

-- The snapshot in a delivery: the event, its webhook type and the domain at that moment, from which
-- the resource in the body is rendered.
pub record WebhookPayload : Type 0 where
  pub id : ℕ
  pub webhook_type : WebhookType
  pub created_at : Time
  pub domain : Domain

pub record WebhookDelivery : Type 0 where
  pub id : ℕ
  pub subscription_id : ℕ
  pub application_id : ℕ
  pub event_id : ℕ
  pub event_type : WebhookType
  pub domain_id : ℕ
  pub payload : WebhookPayload
  pub attempts : ℕ
  pub next_attempt_at : Option Time
  pub delivered_at : Option Time
  pub abandoned_at : Option Time
  pub last_attempt_at : Option Time
  pub last_status : Option ℕ
  pub last_error : Option Text

-- What an operation on a domain row writes besides the row, and the supply of identifiers.
pub record Log : Type 0 where
  pub events : List DomainEvent
  pub subscriptions : List WebhookSubscription
  pub deliveries : List WebhookDelivery
  pub next_id : ℕ
