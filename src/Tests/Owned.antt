-- ===== src/Tests/Owned.antt =====
-- The theorems on credentials, origins and requests at concrete data.
use custom_domain.Common.{
  ℕ, ◌+◌, ◌≡◌, ◌≢◌, ◌↔◌, ◌≤◌, ◌<◌, ◌⊎◌, refl, true, false, ◌&&◌, none, some, List, [], ◌∷◌, arith,
  Text, Time, codes, hours, seconds, count, ltb, strip,
}
use custom_domain.Errors.{ok, is_ok_value}
use custom_domain.Model.{
  OriginHostHeader, CredentialScope, ApiCredential, VerifiedOrigin, Application, is_usable,
  serving_origin,
}
use custom_domain.Hostname.{
  canonicalize, encode_value, has_wildcard, remove_dot, looks_like_ip, check_ascii, lower,
  split_dot, label_ok, is_digits, last_label,
}
use custom_domain.Tenants.Credentials.{
  Keys, find_credential, revoked, revoke_credential, issue_credential, generate_secret,
  authenticate_credential, rotate_credential,
}
use custom_domain.Tenants.CredentialLaws.{
  Authenticates, authenticate_credential_ok, revoked_never_authenticates,
}
use custom_domain.Tenants.KeyRotation.{rotate_credential_lem}
use custom_domain.Tenants.Origins.{register_origin, get_active_origin}
use custom_domain.Tenants.OriginLaws.{is_live_origin}
use custom_domain.Tenants.OriginSteps.{register, start, further, one_verified_active}
use custom_domain.Requests.Throttle.{Limiter, recent, wait, take_request}
use custom_domain.Requests.ThrottleLaws.{IsBounded, take_request-IsBounded, waited_is_accepted}
use custom_domain.Requests.Window.{accepted, is_counted, take_request_lem}
use custom_domain.Requests.Idempotency.{Begun, fresh_key, begin, complete, register_key}
use custom_domain.Requests.IdempotencyLaws.{retry_replays}
use custom_domain.Tests.Data.{libs, draw_token, now, app}

abbrev sha256_hex : Text → Text
sha256_hex t = t

abbrev secret : Text
secret = codes "cd_secret"

abbrev key : ℕ → Text → ApiCredential
key id hash = record {
  id = id;
  application_id = 1;
  label = codes "ci";
  key_prefix = codes "cd_secret";
  key_hash = hash;
  scope = CredentialScope.read;
  last_used_at = none;
  expires_at = none;
  revoked_at = none;
}

-- Two keys, of which one authenticates the secret.
abbrev keys : Keys
keys = record {
  applications = app ∷ [];
  credentials = key 2 (codes "other") ∷ key 3 secret ∷ [];
  next_id = 9;
}

signed_in :
    (out : ApiCredential × Keys) × (authenticate_credential sha256_hex (some secret) now keys
      ≡ ok out)
unfolding authenticate_credential is_usable
signed_in = is_ok_value (authenticate_credential sha256_hex (some secret) now keys) refl

authenticate_credential_ok_example :
    (c : ApiCredential) × Authenticates sha256_hex secret now keys c
    × (signed_in.0.0 ≡ record c { last_used_at = some now })
authenticate_credential_ok_example =
    authenticate_credential_ok sha256_hex secret now keys signed_in.1

abbrev without_2 : Keys
without_2 = record keys {
  credentials = record (key 2 (codes "other")) { revoked_at = some now } ∷ key 3 secret ∷ [];
}

revoking :
    revoke_credential app 2 now keys
    ≡ ok (record (key 2 (codes "other")) { revoked_at = some now }, without_2)
unfolding revoke_credential find_credential revoked
revoking = refl

signed_in_later :
    (out : ApiCredential × Keys) × (authenticate_credential sha256_hex (some secret) now without_2
      ≡ ok out)
unfolding authenticate_credential is_usable
signed_in_later = is_ok_value (authenticate_credential sha256_hex (some secret) now without_2) refl

revoked_never_authenticates_example : signed_in_later.0.0.id ≢ 2
revoked_never_authenticates_example =
    revoked_never_authenticates sha256_hex app 2 now now keys secret revoking signed_in_later.1

rotating :
    (out : (ApiCredential × Text) × ApiCredential × Keys) × (rotate_credential sha256_hex draw_token
        app 3 none
        (hours 24)
        now
        keys
      ≡ ok out)
unfolding rotate_credential find_credential issue_credential generate_secret strip
rotating = is_ok_value (rotate_credential sha256_hex draw_token app 3 none (hours 24) now keys) refl

rotate_credential_lem_example :
    (old : ApiCredential) × (kept : ApiCredential) × (new : ApiCredential) × (find_credential app 3
        keys
      ≡ ok old)
    × ((find_credential app 3 rotating.0.2 ≡ ok kept)
        × ((at : Time) → is_usable at kept ≡ (is_usable at old && ltb at (now + hours 24))))
    × ((find_credential app 9 rotating.0.2 ≡ ok new)
        × (new.scope ≡ old.scope)
        × (new.key_hash ≡ sha256_hex rotating.0.0.1)
        × ((at : Time) → is_usable at new ≡ true))
rotate_credential_lem_example =
    rotate_credential_lem sha256_hex draw_token app 3 none (hours 24) now keys
      (omega arith, (omega arith, tt)) rotating.1

registering :
    (out : VerifiedOrigin × List VerifiedOrigin) × (register_origin libs draw_token app
        (codes "app.acme.com")
        (codes "https")
        none
        OriginHostHeader.customer
        7
        []
      ≡ ok out)
unfolding register_origin canonicalize strip encode_value has_wildcard remove_dot looks_like_ip
    check_ascii lower split_dot label_ok is_digits last_label
registering =
    is_ok_value
      (register_origin libs draw_token app (codes "app.acme.com") (codes "https") none
        OriginHostHeader.customer 7 [])
      refl

abbrev registered : Application
registered = record app { origins = registering.0.1 }

one_verified_active_example :
    (count is_live_origin registered.origins ≤ 1)
    × (serving_origin registered ≡ get_active_origin registered.origins)
one_verified_active_example = one_verified_active libs draw_token registered (
    further start (
      register app (codes "app.acme.com") (codes "https") none OriginHostHeader.customer 7
        registering.0 tt registering.1))

-- One request a minute, and one was just made.
abbrev limiter : Limiter
limiter = record { per_minute = 1; window = seconds 60; seen = [] }

limiter-IsBounded : IsBounded limiter
limiter-IsBounded = record { bounded = λ k. omega arith }

abbrev busy : Limiter
busy = (take_request (codes "key") now limiter).1

busy-IsBounded : IsBounded busy
busy-IsBounded = take_request-IsBounded (codes "key") now limiter limiter-IsBounded

-- Two requests of the key, of which the newer is refused.
abbrev requests : List (Text × Time)
requests = (codes "key", now + seconds 2) ∷ (codes "key", now) ∷ []

take_request_lem_example :
    let after = accepted requests limiter in
    let used = count (is_counted (seconds 60) (codes "key") (now + seconds 61)) after.0 in
    (((take_request (codes "key") (now + seconds 61) after.1).0 ≡ 0)
      ↔ ((limiter.per_minute ≡ 0) ⊎ (used < 1)))
    × ((limiter.per_minute ≡ 0) ⊎ (used ≤ 1))
take_request_lem_example =
    take_request_lem requests limiter (codes "key") (now + seconds 61) refl
      (omega arith, (omega arith, tt))

refused : (take_request (codes "key") now busy).0 ≡ 61
unfolding take_request recent wait
refused = refl

waited_is_accepted_example :
    (take_request (codes "key") (now + seconds 61) (take_request (codes "key") now busy).1).0 ≡ 0
waited_is_accepted_example =
    waited_is_accepted (codes "key") now (now + seconds 61) busy busy-IsBounded
      (rw refused (omega arith)) (rw refused (omega arith))

abbrev begun : Begun
begun = record {
  key_record = fresh_key 1 (codes "k1") (codes "h1") now;
  created = true;
  rows = fresh_key 1 (codes "k1") (codes "h1") now ∷ [];
}

beginning : begin app (codes "k1") (codes "h1") now [] ≡ ok begun
unfolding begin register_key
beginning = refl

retry_replays_example :
    (r : Begun) × (begin app
        (codes "k1")
        (codes "h2")
        (now + hours 1)
        (complete begun.key_record 4 begun.rows)
      ≡ ok r)
    × (r.created ≡ false)
    × (r.key_record ≡ record (fresh_key 1 (codes "k1") (codes "h1") now) { domain_id = some 4 })
retry_replays_example =
    retry_replays app (codes "k1") (codes "h1") (codes "h2") 4 now (now + hours 1) [] beginning refl
      (omega arith)
