-- ===== src/Registry/Claim.antt =====
-- `claim_domain` of app/services/domains.py.
use custom_domain.Common.{
  ℕ, suc, Bool, true, false, not, ◌&&◌, ◌||◌, Option, none, some, List, [], ◌∷◌, ◌++◌, ltb, Text,
  Time, text_eq, strip, length, any, map,
}
use custom_domain.Errors.{
  Result, ok, err, ◌>>=◌, ◌>>◌, raise_if, application_suspended, invalid_reference,
  invalid_hostname, hostname_already_claimed,
}
use custom_domain.Model.{
  DomainStatus, CheckType, CheckStatus, EventType, Payload, Application, DomainCheck, Domain,
  is_active_status, is_deleted,
}
use custom_domain.Hostname.{Libraries, Canonical, canonicalize}
use custom_domain.Dns.Zones.{default_zone}
use custom_domain.Lifecycle.Events.{record_event}
use custom_domain.Lifecycle.Status.{check_types}
use custom_domain.Lifecycle.Claims.{issue_claim}
use custom_domain.Registry.Tables.{Store}
use custom_domain.Registry.Limits.{enforce, enforce_registration_limit}

abbrev pub max_reference_length : ℕ
max_reference_length = 255

abbrev pub is_empty : Text → Bool
is_empty [] = true
is_empty (c ∷ s) = false

abbrev pub new_check : CheckType → DomainCheck
new_check t = record {
  check_type = t;
  status = CheckStatus.pending;
  error_code = none;
  details = none;
  observed_at = none;
  next_check_at = none;
}

-- The partial unique index over the hostnames of live rows.
abbrev pub is_claimed : Text → List Domain → Bool
is_claimed hostname rows = any (λ d. not (is_deleted d) && text_eq d.hostname hostname) rows

abbrev pub canonical_or_raise : Canonical → Result Text
canonical_or_raise (Canonical.ok name) = ok name
canonical_or_raise (Canonical.invalid e) = err (invalid_hostname e)

module _ (libs : Libraries) (token_urlsafe : ℕ → ℕ → Text) where
  unfoldable pub new_domain : ℕ → ℕ → Text → Text → Option Text → Time → Domain
  new_domain id application_id hostname reference metadata now = record {
    id = id;
    application_id = application_id;
    hostname = hostname;
    reference = strip reference;
    status = DomainStatus.pending_dns;
    extra = metadata;
    zone = some (default_zone libs.private_suffix hostname);
    deleted_at = none;
    purge_after = none;
    connect_started_at = none;
    created_at = now;
    claims = [];
    checks = map new_check check_types;
  }

  -- The insert and what follows it: the created event and the first ownership material.
  unfoldable pub register : Application → Text → Text → Option Text → Time → Store → Domain × Store
  register application hostname reference metadata now store =
      let id = store.log.next_id in
      let d = new_domain id application.id hostname reference metadata now in
      let log =
        record_event EventType.domain_created (Payload.created hostname d.reference) now d
          (record store.log { next_id = suc id }) in
      let (d', log') = issue_claim token_urlsafe application.cname_target now d log in
      (d', record store { domains = store.domains ++ d' ∷ []; log = log' })

  -- Given the value of MAX_DOMAINS; returns the new row and the database.
  unfoldable pub claim_domain :
      Option ℕ → Application → Text → Text → Option Text → Time → Store → Result (Domain × Store)
  claim_domain limit application hostname reference metadata now store = do
    raise_if (not (is_active_status application.status)) application_suspended
    raise_if (is_empty (strip reference) || ltb max_reference_length (length reference))
        invalid_reference
    canonical ← canonical_or_raise (canonicalize libs (some hostname) false)
    enforce limit application store.domains
    enforce_registration_limit application now store.log.events
    raise_if (is_claimed canonical store.domains) hostname_already_claimed
    ok (register application canonical reference metadata now store)
