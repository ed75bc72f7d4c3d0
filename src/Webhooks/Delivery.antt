-- ===== src/Webhooks/Delivery.antt =====
-- app/webhooks/worker.py. The request is a parameter: the status that a body with its headers meets, or a failure. The JSON of
-- a payload and the text of an answer are parameters of it too.
use custom_domain.Common.{
  ℕ, suc, ◌+◌, ◌-◌, Bool, true, false, not, ◌&&◌, ◌||◌, ◌==◌, leb, ltb, min, Option, none, some,
  is_some, is_none, List, [], ◌∷◌, first, select, update, count, any, length, take, Text, codes,
  Time, minutes, hours, if◌then◌else◌,
}
use custom_domain.Model.{
  Application, WebhookSubscription, WebhookPayload, WebhookDelivery, Log, is_active,
}
use custom_domain.Webhooks.Signature.{sign}
use custom_domain.Webhooks.Subscriptions.{signing_secrets}

abbrev pub retry_backoff : List Time
retry_backoff = minutes 1 ∷ minutes 5 ∷ minutes 30 ∷ hours 2 ∷ hours 12 ∷ hours 24 ∷ []

-- `BACKOFF[index]`; the value past the end is never read.
unfoldable pub retry_entry : ℕ → List Time → Time
retry_entry index [] = 0
retry_entry ℕ.zero (t ∷ ts) = t
retry_entry (suc index) (t ∷ ts) = retry_entry index ts

abbrev pub max_attempts : ℕ
max_attempts = 8

abbrev pub delivery_lease : Time
delivery_lease = minutes 2

-- `next_attempt_at <= now`; a comparison with NULL is not true.
abbrev pub is_reached : Option Time → Time → Bool
is_reached none now = false
is_reached (some at) now = leb at now

-- `_due`
unfoldable pub is_due : Time → WebhookDelivery → Bool
is_due now v = is_none v.delivered_at && is_none v.abandoned_at && is_reached v.next_attempt_at now

abbrev pub put_delivery : WebhookDelivery → Log → Log
put_delivery v log = record log { deliveries = update (λ r. r.id == v.id) (λ _. v) log.deliveries }

abbrev pub leased : Time → WebhookDelivery → WebhookDelivery
leased now v = record v { next_attempt_at = some (now + delivery_lease) }

-- The row that is leased, if it is due; `lease_delivery` with the reload that follows it.
unfoldable pub lease_delivery : ℕ → Time → Log → Option (WebhookDelivery × Log)
lease_delivery delivery_id now log =
    elim (first (λ r. r.id == delivery_id && is_due now r) log.deliveries) [
      | none ↦ none
      | some v ↦ some (leased now v, put_delivery (leased now v) log)
    ]

-- What a request met: a status and the text of the answer, or the text of an exception.
pub data Sent : Type 0 where
  answered : ℕ → Text → Sent
  crashed : Text → Sent

abbrev pub succeeded : Sent → Bool
succeeded (answered status text) = leb 200 status && ltb status 300
succeeded (crashed text) = false

abbrev pub sent_status : Sent → Option ℕ
sent_status (answered status text) = some status
sent_status (crashed text) = none

pub data AttemptOutcome : Type 0 where
  skipped delivered retry abandoned : AttemptOutcome

abbrev pub is_skipped : AttemptOutcome → Bool
is_skipped AttemptOutcome.skipped = true
is_skipped _ = false

-- The row after the request, as it was reloaded. `message` is the text of the error.
unfoldable pub finish_attempt :
    (Sent → Text) → Sent → Time → WebhookDelivery → AttemptOutcome × WebhookDelivery
finish_attempt message sent now v =
    let attempts = v.attempts + 1 in
    let counted = record v {
      attempts = attempts;
      last_attempt_at = some now;
      last_status = sent_status sent;
      last_error = if succeeded sent then none else some (message sent);
    } in
    if succeeded sent
    then (delivered, record counted { delivered_at = some now; next_attempt_at = none })
    else if leb max_attempts attempts
    then (abandoned, record counted { abandoned_at = some now; next_attempt_at = none })
    else (
      retry,
      record counted {
        next_attempt_at =
            some (now + retry_entry (min attempts (length retry_backoff) - 1) retry_backoff);
      },
    )

unfoldable pub abandon : Time → WebhookDelivery → WebhookDelivery
abandon now v = record v {
  abandoned_at = some now;
  last_error = some (codes "subscription revoked");
}

-- `session.get(WebhookSubscription, ...)`, if it is active.
unfoldable pub live_subscription : ℕ → Log → Option WebhookSubscription
live_subscription id log = elim (first (λ s. s.id == id) log.subscriptions) [
  | none ↦ none
  | some s ↦ if is_active s then some s else none
]

-- `dumps` is the JSON of a payload, `unix` the seconds of an instant, and `sender` the request with the signature
-- header among its headers.
module _ (hmac : Text → Text → Text) (dumps : WebhookPayload → Text) (unix : Time → ℕ)
    (sender : Text → Text → Text → Sent) (message : Sent → Text) where
  unfoldable pub send : WebhookSubscription → Time → WebhookDelivery → Sent
  send s now v =
      sender s.url (dumps v.payload)
        (sign hmac (dumps v.payload) (signing_secrets s now) (unix now))

  -- The attempt on the row that was leased.
  unfoldable pub attempt_row :
      Option WebhookSubscription → Time → WebhookDelivery → AttemptOutcome × WebhookDelivery
  attempt_row none now v = (abandoned, abandon now v)
  attempt_row (some s) now v = finish_attempt message (send s now v) now v

  unfoldable pub attempt_delivery : ℕ → Time → Log → AttemptOutcome × Log
  attempt_delivery delivery_id now log = elim (lease_delivery delivery_id now log) [
    | none ↦ (skipped, log)
    | some (v, log') ↦
        let (outcome, v') = attempt_row (live_subscription v.subscription_id log') now v in
        (outcome, put_delivery v' log')
  ]

-- The earliest deliveries first, up to the size of a batch: ORDER BY next_attempt_at, id.
abbrev pub due_before : WebhookDelivery → WebhookDelivery → Bool
due_before v w = elim v.next_attempt_at [
  | none ↦ true
  | some a ↦ elim w.next_attempt_at [ none ↦ false | some b ↦ ltb a b || a == b && leb v.id w.id ]
]

unfoldable pub insert_delivery : WebhookDelivery → List WebhookDelivery → List WebhookDelivery
insert_delivery v [] = v ∷ []
insert_delivery v (w ∷ ws) = if due_before v w then v ∷ w ∷ ws else w ∷ insert_delivery v ws

unfoldable pub order_deliveries : List WebhookDelivery → List WebhookDelivery
unfolding insert_delivery
order_deliveries [] = []
order_deliveries (v ∷ vs) = insert_delivery v (order_deliveries vs)

unfoldable pub due_deliveries : Time → ℕ → Log → List WebhookDelivery
due_deliveries now limit log = take limit (order_deliveries (select (is_due now) log.deliveries))

-- A subscription of a deleted application with no delivery pending.
unfoldable pub is_settled : List Application → List WebhookDelivery → WebhookSubscription → Bool
is_settled applications deliveries s =
    is_none s.revoked_at
    && any (λ a. a.id == s.application_id && is_some a.deleted_at) applications
    && not (
        any (λ v. v.subscription_id == s.id && is_none v.delivered_at && is_none v.abandoned_at)
          deliveries)

-- Returns how many subscriptions are revoked.
unfoldable pub settle_deleted_applications : List Application → Time → Log → ℕ × Log
settle_deleted_applications applications now log =
    let settled = is_settled applications log.deliveries in
    (
      count settled log.subscriptions,
      record log {
        subscriptions = update settled (λ s. record s { revoked_at = some now }) log.subscriptions;
      },
    )
