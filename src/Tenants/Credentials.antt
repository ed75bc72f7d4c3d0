-- ===== src/Tenants/Credentials.antt =====
-- app/services/applications.py: the API keys of the applications. SHA-256 and the random token are parameters.
use custom_domain.Common.{
  ℕ, suc, ◌+◌, ◌==◌, Bool, true, false, not, ◌&&◌, Option, none, some, is_none, List, [], ◌∷◌, ◌++◌,
  first, select, update, take, length, ltb, Text, Time, codes, strip, text_eq, hours, if◌then◌else◌,
}
use custom_domain.Errors.{
  Result, ok, err, ◌>>=◌, ◌>>◌, raise_if, or_raise, invalid_credential, credential_not_found,
  credential_in_use,
}
use custom_domain.Model.{CredentialScope, ApiCredential, Application, is_usable, is_active_status}

pub record Keys : Type 0 where
  pub applications : List Application
  pub credentials : List ApiCredential
  pub next_id : ℕ

abbrev pub secret_prefix : Text
secret_prefix = codes "cd_"

abbrev pub secret_bytes : ℕ
secret_bytes = 32

abbrev pub key_prefix_length : ℕ
key_prefix_length = 11

-- `secret.startswith(prefix)`
abbrev pub starts_with : Text → Text → Bool
starts_with prefix secret = text_eq (take (length prefix) secret) prefix

abbrev pub is_blank : Text → Bool
is_blank label = text_eq (strip label) []

-- The row that a method of an application looks up.
unfoldable pub find_credential : Application → ℕ → Keys → Result ApiCredential
find_credential application credential_id keys =
    or_raise
      (first (λ c. c.id == credential_id && c.application_id == application.id) keys.credentials)
      credential_not_found

abbrev pub with_credential : ApiCredential → Keys → Keys
with_credential c keys = record keys {
  credentials = update (λ r. r.id == c.id) (λ _. c) keys.credentials;
}

unfoldable pub list_credentials : Application → Keys → List ApiCredential
list_credentials application keys =
    select (λ c. c.application_id == application.id) keys.credentials

abbrev pub owner_active : ℕ → List Application → Bool
owner_active application_id [] = false
owner_active application_id (a ∷ rest) =
    if a.id == application_id then is_active_status a.status else owner_active application_id rest

unfoldable pub revoked : Time → ApiCredential → ApiCredential
revoked now c = record c { revoked_at = elim c.revoked_at [ none ↦ some now | some at ↦ some at ] }

unfoldable pub revoke_credential : Application → ℕ → Time → Keys → Result (ApiCredential × Keys)
revoke_credential application credential_id now keys = do
  c ← find_credential application credential_id keys
  ok (revoked now c, with_credential (revoked now c) keys)

-- Only a key that no longer authenticates is removed.
unfoldable pub delete_credential : Application → ℕ → Time → Keys → Result Keys
delete_credential application credential_id now keys = do
  c ← find_credential application credential_id keys
  raise_if (is_usable now c) credential_in_use
  ok (record keys { credentials = select (λ r. not (r.id == c.id)) keys.credentials })

abbrev pub default_grace : Time
default_grace = hours 24

-- `old.expires_at is None or old.expires_at > cutoff`
abbrev pub outlives : Option Time → Time → Bool
outlives none cutoff = true
outlives (some at) cutoff = ltb cutoff at

-- The old key expires at the end of the grace period at the latest.
unfoldable pub curtailed : Time → ApiCredential → ApiCredential
curtailed cutoff c =
    if is_none c.revoked_at && outlives c.expires_at cutoff
    then record c { expires_at = some cutoff }
    else c

-- `label or old.label`
abbrev pub label_or : Option Text → Text → Text
label_or none old = old
label_or (some label) old = elim label [ [] ↦ old | c ∷ cs ↦ c ∷ cs ]

module _ (sha256_hex : Text → Text) where
  unfoldable pub authenticate_credential : Option Text → Time → Keys → Result (ApiCredential × Keys)
  authenticate_credential none now keys = err invalid_credential
  authenticate_credential (some secret) now keys =
      let digest = sha256_hex secret in
      do
        raise_if (not (starts_with secret_prefix secret)) invalid_credential
        c ← or_raise (first (λ r. text_eq r.key_hash digest) keys.credentials) invalid_credential
        raise_if (not (is_usable now c)) invalid_credential
        raise_if (not (owner_active c.application_id keys.applications)) invalid_credential
        ok (
          record c { last_used_at = some now },
          with_credential (record c { last_used_at = some now }) keys,
        )

module _ (sha256_hex : Text → Text) (token_urlsafe : ℕ → ℕ → Text) where
  unfoldable pub generate_secret : ℕ → Text
  generate_secret draw = secret_prefix ++ token_urlsafe secret_bytes draw

  unfoldable pub issue_credential :
      Application
      → Text
      → Option Time
      → CredentialScope
      → Keys
      → Result ((ApiCredential × Text) × Keys)
  issue_credential application label expires_at scope keys =
      let secret = generate_secret keys.next_id in
      let c : ApiCredential = record {
        id = keys.next_id;
        application_id = application.id;
        label = strip label;
        key_prefix = take key_prefix_length secret;
        key_hash = sha256_hex secret;
        scope = scope;
        last_used_at = none;
        expires_at = expires_at;
        revoked_at = none;
      } in
      raise_if (is_blank label) invalid_credential
      >> ok (
        (c, secret),
        record keys { credentials = keys.credentials ++ c ∷ []; next_id = suc keys.next_id },
      )

  unfoldable pub rotate_credential :
      Application
      → ℕ
      → Option Text
      → Time
      → Time
      → Keys
      → Result ((ApiCredential × Text) × ApiCredential × Keys)
  rotate_credential application credential_id label grace now keys = do
    old ← find_credential application credential_id keys
    (issued, keys') ← issue_credential application (label_or label old.label) none old.scope keys
    ok (issued, curtailed (now + grace) old, with_credential (curtailed (now + grace) old) keys')
