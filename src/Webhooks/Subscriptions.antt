-- ===== src/Webhooks/Subscriptions.antt =====
-- app/services/webhooks.py: the subscriptions of an application, and the replay of deliveries. The parser of URLs, name
-- resolution and the table of public addresses are a parameter.
use custom_domain.Common.{
  ℕ, suc, ◌+◌, Bool, true, false, not, ◌&&◌, ◌||◌, ◌==◌, leb, ltb, Option, none, some, is_some,
  is_none, List, [], ◌∷◌, ◌++◌, map, first, select, update, count, all, member, Text, text_eq,
  strip, codes, Time, hours, if◌then◌else◌,
}
use custom_domain.Errors.{
  Result, ok, ◌>>=◌, ◌>>◌, raise_if, or_raise, webhook_not_found, invalid_webhook,
  delivery_not_found,
}
use custom_domain.Model.{
  Application, WebhookType, WebhookSubscription, WebhookDelivery, Log, is_active,
}

-- What `urlsplit` finds in an absolute URL: `port` is `none` where it is not a number.
pub record Url : Type 0 where
  pub scheme : Text
  pub hostname : Option Text
  pub has_user : Bool
  pub port : Option (Option ℕ)

pub record Network : Type 0 where
  pub urlsplit : Text → Url
  -- `socket.getaddrinfo`; `none` for a `gaierror`.
  pub getaddrinfo : Text → ℕ → Option (List Text)
  -- `ipaddress.ip_address(a).is_global`
  pub is_global : Text → Bool

abbrev pub max_subscriptions : ℕ
max_subscriptions = 10

abbrev pub webhook_secret_prefix : Text
webhook_secret_prefix = codes "whsec_"

abbrev pub rotation_grace : Time
rotation_grace = hours 24

abbrev pub webhook_name : WebhookType → Text
webhook_name WebhookType.ready = codes "domain.ready"
webhook_name WebhookType.attention_required = codes "domain.attention_required"
webhook_name WebhookType.recovered = codes "domain.recovered"
webhook_name WebhookType.deleted = codes "domain.deleted"

-- The types in the order of their names.
abbrev pub sorted_types : List WebhookType
sorted_types =
    WebhookType.attention_required ∷ WebhookType.deleted ∷ WebhookType.ready ∷ WebhookType.recovered
    ∷ []

abbrev pub is_known : Text → Bool
is_known name = member name (map webhook_name sorted_types)

-- `sorted(set(events))`, of known names.
unfoldable pub chosen_types : List Text → List WebhookType
chosen_types events = select (λ t. member (webhook_name t) events) sorted_types

-- The addresses, each once.
unfoldable pub distinct_addresses : List Text → List Text → List Text
distinct_addresses seen [] = seen
distinct_addresses seen (a ∷ rest) =
    distinct_addresses (if member a seen then seen else seen ++ a ∷ []) rest

abbrev pub is_nil : List Text → Bool
is_nil [] = true
is_nil (t ∷ ts) = false

abbrev pub default_webhook_port : Text → Option ℕ → ℕ
default_webhook_port scheme none = if text_eq scheme (codes "https") then 443 else 80
default_webhook_port scheme (some port) =
    if port == 0 then (if text_eq scheme (codes "https") then 443 else 80) else port

module _ (net : Network) where
  unfoldable pub resolve_public : Text → ℕ → Bool → Result (List Text)
  resolve_public host port allow_private = do
    infos ← or_raise (net.getaddrinfo host port) invalid_webhook
    let addresses = distinct_addresses [] infos
    raise_if (is_nil addresses) invalid_webhook
    raise_if (not allow_private && not (all net.is_global addresses)) invalid_webhook
    ok addresses

  abbrev pub is_http : Url → Bool
  is_http parts = text_eq parts.scheme (codes "http")

  unfoldable pub validate_url : Text → Bool → Result Text
  validate_url url allow_private = do
    let parts = net.urlsplit (strip url)
    raise_if (not (text_eq parts.scheme (codes "https") || is_http parts)) invalid_webhook
    host ← or_raise parts.hostname invalid_webhook
    raise_if (is_http parts && not allow_private) invalid_webhook
    raise_if parts.has_user invalid_webhook
    port ← or_raise parts.port invalid_webhook
    addresses ← resolve_public host (default_webhook_port parts.scheme port) allow_private
    ok (strip url)

unfoldable pub list_subscriptions : Application → Log → List WebhookSubscription
list_subscriptions application log =
    select (λ s. s.application_id == application.id) log.subscriptions

unfoldable pub get_subscription : Application → ℕ → Log → Result WebhookSubscription
get_subscription application subscription_id log =
    or_raise
      (first (λ s. s.id == subscription_id && s.application_id == application.id) log.subscriptions)
      webhook_not_found

abbrev pub put_subscription : WebhookSubscription → Log → Log
put_subscription s log = record log {
  subscriptions = update (λ r. r.id == s.id) (λ _. s) log.subscriptions;
}

unfoldable pub revoke_subscription :
    Application → ℕ → Time → Log → Result (WebhookSubscription × Log)
revoke_subscription application subscription_id now log = do
  s ← get_subscription application subscription_id log
  let revoked_at : Time = elim s.revoked_at [ none ↦ now | some at ↦ at ]
  let s' = record s { revoked_at = some revoked_at }
  ok (s', put_subscription s' log)

-- The deliveries go with their subscription.
unfoldable pub delete_subscription : Application → ℕ → Log → Result Log
delete_subscription application subscription_id log = do
  s ← get_subscription application subscription_id log
  raise_if (is_none s.revoked_at) invalid_webhook
  ok (record log {
    subscriptions = select (λ r. not (r.id == s.id)) log.subscriptions;
    deliveries = select (λ v. not (v.subscription_id == s.id)) log.deliveries;
  })

-- The secrets that sign a delivery: the current one and, while it lasts, the previous one.
unfoldable pub signing_secrets : WebhookSubscription → Time → List Text
signing_secrets s now =
    let lasting : Bool = elim s.previous_secret_expires_at [
      | none ↦ false
      | some at ↦ ltb now at
    ] in
    elim s.previous_secret [
      | none ↦ s.secret ∷ []
      | some previous ↦
          if not (text_eq previous []) && lasting then s.secret ∷ previous ∷ [] else s.secret ∷ []
    ]

module _ (net : Network) (token_urlsafe : ℕ → ℕ → Text) where
  abbrev pub new_webhook_secret : ℕ → Text
  new_webhook_secret draw = webhook_secret_prefix ++ token_urlsafe 32 draw

  -- The identifier of the row also draws the secret.
  unfoldable pub create_subscription :
      Application → Text → List Text → Bool → Log → Result (WebhookSubscription × Log)
  create_subscription application url events allow_private log = do
    raise_if (is_nil events || not (all is_known events)) invalid_webhook
    raise_if (leb max_subscriptions (count is_active (list_subscriptions application log)))
        invalid_webhook
    target ← validate_url net url allow_private
    let s : WebhookSubscription = record {
      id = log.next_id;
      application_id = application.id;
      url = target;
      events = chosen_types events;
      secret = new_webhook_secret log.next_id;
      previous_secret = none;
      previous_secret_expires_at = none;
      revoked_at = none;
    }
    ok (s, record log { subscriptions = log.subscriptions ++ s ∷ []; next_id = suc log.next_id })

  -- Returns the row, which holds the new secret.
  unfoldable pub rotate_secret :
      Application → ℕ → Time → Time → Log → Result (WebhookSubscription × Log)
  rotate_secret application subscription_id grace now log = do
    s ← get_subscription application subscription_id log
    let s' = record s {
      previous_secret = some s.secret;
      previous_secret_expires_at = some (now + grace);
      secret = new_webhook_secret log.next_id;
    }
    ok (s', record (put_subscription s' log) { next_id = suc log.next_id })

pub data DeliveryState : Type 0 where
  delivered abandoned pending : DeliveryState

-- `state`, where it filters a query.
abbrev pub in_state : Option DeliveryState → WebhookDelivery → Bool
in_state none v = true
in_state (some DeliveryState.delivered) v = is_some v.delivered_at
in_state (some DeliveryState.abandoned) v = is_some v.abandoned_at
in_state (some DeliveryState.pending) v = is_none v.delivered_at && is_none v.abandoned_at

-- A delivery as it is queued again.
unfoldable pub requeued : Time → WebhookDelivery → WebhookDelivery
requeued now v = record v {
  delivered_at = none;
  abandoned_at = none;
  attempts = 0;
  next_attempt_at = some now;
}

unfoldable pub replay_delivery : Application → ℕ → ℕ → Time → Log → Result (WebhookDelivery × Log)
replay_delivery application subscription_id delivery_id now log = do
  s ← get_subscription application subscription_id log
  v ←
      or_raise (first (λ r. r.id == delivery_id && r.subscription_id == s.id) log.deliveries)
        delivery_not_found
  let v' = requeued now v
  ok (v', record log { deliveries = update (λ r. r.id == v.id) (λ _. v') log.deliveries })

-- `created_at` is the stamp that the ORM put on a row, by its identifier. Returns how many are queued.
unfoldable pub replay_since : (ℕ → Time) → Application → ℕ → Time → Time → Log → Result (ℕ × Log)
replay_since created_at application subscription_id since now log = do
  s ← get_subscription application subscription_id log
  let chosen = λ (v : WebhookDelivery). v.subscription_id == s.id && leb since (created_at v.id)
  ok (
    count chosen log.deliveries,
    record log { deliveries = update chosen (requeued now) log.deliveries },
  )
