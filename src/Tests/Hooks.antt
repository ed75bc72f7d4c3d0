-- ===== src/Tests/Hooks.antt =====
-- The theorems on webhooks at concrete deliveries.
use custom_domain.Common.{
  ◌+◌, ◌≡◌, ◌≤◌, refl, true, false, none, some, [], ◌∷◌, Text, codes, hours, arith, pos,
}
use custom_domain.Errors.{ok, is_ok_value}
use custom_domain.Model.{
  WebhookType, WebhookSubscription, WebhookPayload, WebhookDelivery, Log, is_active,
}
use custom_domain.Webhooks.Signature.{Verified, distance, sign, verify}
use custom_domain.Webhooks.SignatureLaws.{Hexadecimal, verify-sign}
use custom_domain.Webhooks.Subscriptions.{Network, get_subscription, rotate_secret, signing_secrets}
use custom_domain.Webhooks.Delivery.{Sent, attempt_row, live_subscription}
use custom_domain.Webhooks.Attempts.{Left, met, attempt_row-Left}
use custom_domain.Webhooks.Rotation.{rotation_keeps_consumers}
use custom_domain.Tests.Data.{draw_token, now, app, row}

abbrev hmac : Text → Text → Text
hmac secret message = codes "5a"

hmac-Hexadecimal : Hexadecimal hmac
hmac-Hexadecimal secret message = refl

abbrev old_key : Text
old_key = codes "whsec_old"

close : distance 1000 (pos 900) ≤ 300
unfolding distance
close = omega arith

verify-sign_example :
    verify hmac
      (some (sign hmac (codes "{}") (codes "other" ∷ old_key ∷ []) 900))
      (codes "{}")
      (old_key ∷ [])
      1000
      300
    ≡ Verified.verified (pos 900)
verify-sign_example =
    verify-sign hmac hmac-Hexadecimal (codes "{}") (codes "other" ∷ old_key ∷ []) (old_key ∷ []) 900
      1000 300 refl close

abbrev subscription : WebhookSubscription
subscription = record {
  id = 6;
  application_id = 1;
  url = codes "https://hooks.acme.com/";
  events = WebhookType.ready ∷ [];
  secret = old_key;
  previous_secret = none;
  previous_secret_expires_at = none;
  revoked_at = none;
}

abbrev delivery : WebhookDelivery
delivery = record {
  id = 7;
  subscription_id = 6;
  application_id = 1;
  event_id = 3;
  event_type = WebhookType.ready;
  domain_id = 4;
  payload = record { id = 3; webhook_type = WebhookType.ready; created_at = now; domain = row };
  attempts = 6;
  next_attempt_at = some now;
  delivered_at = none;
  abandoned_at = none;
  last_attempt_at = none;
  last_status = none;
  last_error = none;
}

abbrev log : Log
log = record {
  events = [];
  subscriptions = subscription ∷ [];
  deliveries = delivery ∷ [];
  next_id = 10;
}

abbrev dumps : WebhookPayload → Text
dumps payload = codes "{}"

abbrev sender : Text → Text → Text → Sent
sender url body header = Sent.answered 503 (codes "busy")

abbrev message : Sent → Text
message sent = codes "HTTP 503"

attempt_row-Left_example :
    let r = attempt_row hmac dumps (λ t. 0) sender message (some subscription) now delivery in
    Left
      (met hmac dumps (λ t. 0) sender message (some subscription) now delivery)
      r.0
      now
      delivery
      r.1
attempt_row-Left_example =
    attempt_row-Left hmac dumps (λ t. 0) sender message (some subscription) now delivery

abbrev net : Network
net = record {
  urlsplit = λ url. record {
    scheme = codes "https";
    hostname = some (codes "hooks.acme.com");
    has_user = false;
    port = some none;
  };
  getaddrinfo = λ host port. some (codes "203.0.113.9" ∷ []);
  is_global = λ address. true;
}

rotating :
    (out : WebhookSubscription × Log) × (rotate_secret net draw_token app 6 (hours 24) now log
      ≡ ok out)
unfolding rotate_secret get_subscription
rotating = is_ok_value (rotate_secret net draw_token app 6 (hours 24) now log) refl

held : get_subscription app 6 log ≡ ok subscription
unfolding get_subscription
held = refl

rotation_keeps_consumers_example :
    (s : WebhookSubscription) × (live_subscription 6 rotating.0.1 ≡ some s)
    × (s.secret ≡ rotating.0.0.secret)
    × (let header = sign hmac (codes "{}") (signing_secrets s (now + hours 1)) 900 in
        (verify hmac (some header) (codes "{}") (old_key ∷ []) 1000 300
          ≡ Verified.verified (pos 900))
        × (verify hmac (some header) (codes "{}") (rotating.0.0.secret ∷ []) 1000 300
            ≡ Verified.verified (pos 900)))
unfolding is_active
rotation_keeps_consumers_example =
    rotation_keeps_consumers net draw_token hmac hmac-Hexadecimal app 6 (hours 24) now log held refl
      refl rotating.1 (now + hours 1) (codes "{}") 900 1000 300 (omega arith) close
