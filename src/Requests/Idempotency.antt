-- ===== src/Requests/Idempotency.antt =====
-- app/services/idempotency.py. The hash of a request is the caller's; the unique index on (application_id, key) is the test
-- that an insert makes.
use custom_domain.Common.{
  ℕ, ◌+◌, ◌==◌, Bool, true, false, not, ◌&&◌, ◌||◌, Option, none, some, List, [], ◌∷◌, ◌++◌, first,
  select, update, length, ltb, leb, Text, text_eq, Time, hours, if◌then◌else◌,
}
use custom_domain.Errors.{Result, ok, ◌>>◌, raise_if, invalid_idempotency_key}
use custom_domain.Model.{Application}

pub record IdempotencyKey : Type 0 where
  pub application_id : ℕ
  pub key : Text
  pub request_hash : Text
  pub domain_id : Option ℕ
  pub created_at : Time
  pub expires_at : Time

abbrev pub idempotency_ttl : Time
idempotency_ttl = hours 24

abbrev pub max_key_length : ℕ
max_key_length = 255

abbrev pub same_key : ℕ → Text → IdempotencyKey → Bool
same_key application_id key r = r.application_id == application_id && text_eq r.key key

abbrev pub fresh_key : ℕ → Text → Text → Time → IdempotencyKey
fresh_key application_id key request_hash now = record {
  application_id = application_id;
  key = key;
  request_hash = request_hash;
  domain_id = none;
  created_at = now;
  expires_at = now + idempotency_ttl;
}

-- The outcome of `begin`: the record, whether it was created, and the table.
pub record Begun : Type 0 where
  pub key_record : IdempotencyKey
  pub created : Bool
  pub rows : List IdempotencyKey

-- A record past its expiry is taken over in place.
unfoldable pub reclaim : IdempotencyKey → IdempotencyKey → Time → List IdempotencyKey → Begun
reclaim existing renewed now rows =
    if leb existing.expires_at now
    then record {
      key_record = renewed;
      created = true;
      rows = update (same_key renewed.application_id renewed.key) (λ _. renewed) rows;
    }
    else record { key_record = existing; created = false; rows = rows }

abbrev pub is_invalid_key : Text → Bool
is_invalid_key key = text_eq key [] || ltb max_key_length (length key)

-- The insert, or what the unique index leads to.
unfoldable pub register_key :
    IdempotencyKey → Option IdempotencyKey → Time → List IdempotencyKey → Begun
register_key added none now rows = record {
  key_record = added;
  created = true;
  rows = rows ++ added ∷ [];
}
register_key added (some existing) now rows = reclaim existing added now rows

unfoldable pub begin : Application → Text → Text → Time → List IdempotencyKey → Result Begun
begin application key request_hash now rows =
    let added = fresh_key application.id key request_hash now in
    raise_if (is_invalid_key key) invalid_idempotency_key
    >> ok (register_key added (first (same_key application.id key) rows) now rows)

unfoldable pub complete : IdempotencyKey → ℕ → List IdempotencyKey → List IdempotencyKey
complete key_record domain_id rows =
    update (same_key key_record.application_id key_record.key)
      (λ r. record r { domain_id = some domain_id }) rows

unfoldable pub purge_expired : Time → List IdempotencyKey → List IdempotencyKey
purge_expired now rows = select (λ r. not (leb r.expires_at now)) rows
