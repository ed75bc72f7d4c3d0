-- ===== src/Tenants/Applications.antt =====
-- app/services/applications.py: the applications. The hexadecimal text of an identifier is a parameter, and the database makes a
-- slug unique among all applications, the deleted ones included.
use custom_domain.Common.{
  ℕ, suc, ◌+◌, ◌==◌, Bool, true, false, not, ◌&&◌, ◌||◌, Option, none, some, is_none, List, [], ◌∷◌,
  ◌++◌, map, select, update, first, any, take, length, ltb, leb, max, Text, text_eq, strip, codes,
  Time, if◌then◌else◌, member,
}
use custom_domain.Errors.{
  Result, ok, err, ◌>>=◌, ◌>>◌, raise_if, or_raise, invalid_application, application_already_exists,
  confirmation_mismatch, application_not_empty, application_not_found,
}
use custom_domain.Hostname.{Libraries, Canonical, canonicalize, full_label, drop_newline}
use custom_domain.Model.{
  ApplicationStatus, OriginStatus, Application, VerifiedOrigin, ApiCredential, Domain, is_deleted,
  OwnershipClaim, is_live_claim,
}
use custom_domain.Lifecycle.Claims.{tombstone_retention}
use custom_domain.Registry.{Store, live_domains, delete_domain}
use custom_domain.Tenants.Credentials.{is_blank}

-- The tables that an application's rows are in.
pub record Tenancy : Type 0 where
  pub store : Store
  pub credentials : List ApiCredential

-- `_SLUG_RE.match(slug)`: the length bounds what stands before a newline that ends the text.
unfoldable pub is_slug : Text → Bool
is_slug slug = short slug || short (drop_newline slug)
  where
    short : Text → Bool
    short s = full_label s && leb (length s) 64

abbrev pub canonical_target : Canonical → Result Text
canonical_target (Canonical.ok name) = ok name
canonical_target (Canonical.invalid e) = err invalid_application

abbrev pub with_slug : Text → List Application → Bool
with_slug slug rows = any (λ a. text_eq a.slug slug) rows

abbrev pub put_application : Application → List Application → List Application
put_application a rows = update (λ r. r.id == a.id) (λ _. a) rows

abbrev pub save_application : Application → Store → Store
save_application a store = record store { applications = put_application a store.applications }

unfoldable pub new_application : ℕ → Text → Text → Text → Application
new_application id slug name cname_target = record {
  id = id;
  slug = slug;
  name = name;
  status = ApplicationStatus.active;
  cname_target = cname_target;
  workspace_probe_enabled = true;
  max_domains = none;
  rate_limit_per_minute = none;
  rate_limit_per_second = none;
  deleted_at = none;
  purge_after = none;
  origins = [];
}

unfoldable pub create_application :
    Libraries → Text → Text → Text → Store → Result (Application × Store)
create_application libs slug name cname_target store = do
  raise_if (not (is_slug slug)) invalid_application
  raise_if (is_blank name) invalid_application
  target ← canonical_target (canonicalize libs (some cname_target) true)
  raise_if (with_slug slug store.applications) application_already_exists
  let a = new_application store.log.next_id slug (strip name) target
  ok (
    a,
    record store {
      applications = store.applications ++ a ∷ [];
      log = record store.log { next_id = suc store.log.next_id };
    },
  )

unfoldable pub rename_application : Text → Application → Store → Result (Application × Store)
rename_application name application store =
    let a = record application { name = strip name } in
    raise_if (is_blank name) invalid_application
    >> raise_if (ltb 200 (length (strip name))) invalid_application
    >> ok (a, save_application a store)

abbrev pub max_rate : ℕ
max_rate = 1000000

abbrev pub valid_rate : Option ℕ → Bool
valid_rate none = true
valid_rate (some n) = leb 1 n && leb n max_rate

unfoldable pub set_rate_limits :
    Option ℕ → Option ℕ → Application → Store → Result (Application × Store)
set_rate_limits per_minute per_second application store =
    let a = record application {
      rate_limit_per_minute = per_minute;
      rate_limit_per_second = per_second;
    } in
    raise_if (not (valid_rate per_minute)) invalid_application
    >> raise_if (not (valid_rate per_second)) invalid_application
    >> ok (a, save_application a store)

-- `validate_application_limit`
abbrev pub valid_limit : Option ℕ → Bool
valid_limit none = true
valid_limit (some n) = leb 1 n

unfoldable pub set_domain_limit : Option ℕ → Application → Store → Result (Application × Store)
set_domain_limit max_domains application store =
    let a = record application { max_domains = max_domains } in
    raise_if (not (valid_limit max_domains)) invalid_application >> ok (a, save_application a store)

unfoldable pub set_cname_target : Libraries → Text → Application → Store → Result (Text × Store)
set_cname_target libs cname_target application store = do
  target ← canonical_target (canonicalize libs (some cname_target) true)
  ok (target, save_application (record application { cname_target = target }) store)

unfoldable pub set_application_status :
    ApplicationStatus → Application → Store → Application × Store
set_application_status status application store =
    let a = record application { status = status } in (a, save_application a store)

unfoldable pub get_application : ℕ → Store → Result Application
get_application application_id store =
    or_raise (first (λ a. a.id == application_id && is_none a.deleted_at) store.applications)
      application_not_found

unfoldable pub get_application_by_slug : Text → Bool → Store → Result Application
get_application_by_slug slug include_deleted store =
    or_raise
      (first (λ a. text_eq a.slug slug && (include_deleted || is_none a.deleted_at))
        store.applications)
      application_not_found

-- The live rows of an application.
abbrev pub is_live_of : Application → Domain → Bool
is_live_of a d = not (is_deleted d) && d.application_id == a.id

-- The loop over the live domains.
unfoldable pub delete_each : Application → List ℕ → Time → Store → Result Store
delete_each application [] now store = ok store
delete_each application (i ∷ is) now store = do
  (d, store') ← delete_domain application i now store
  delete_each application is now store'

abbrev pub revoke_at : Time → ApiCredential → ApiCredential
revoke_at now c = record c {
  revoked_at = elim c.revoked_at [ none ↦ some now | some at ↦ some at ];
}

abbrev pub retire : VerifiedOrigin → VerifiedOrigin
retire o = record o { is_active = false; status = OriginStatus.retired }

-- `func.max(Domain.purge_after)`, and `max(filter(None, [latest_purge, at]))`.
abbrev pub later_of : Option Time → Time → Time
later_of none at = at
later_of (some t) at = max t at

unfoldable pub latest_purge : Application → Time → List Domain → Time
latest_purge application at [] = at
latest_purge application at (d ∷ ds) =
    let rest = latest_purge application at ds in
    if d.application_id == application.id then later_of d.purge_after rest else rest

module _ (id_hex : ℕ → Text) where
  abbrev pub archived_slug : Application → Text
  archived_slug a = take 46 a.slug ++ codes "~" ++ take 12 (id_hex a.id)

  unfoldable pub archived : Time → Time → Application → Application
  archived now purge_after a = record a {
    slug = archived_slug a;
    status = ApplicationStatus.suspended;
    deleted_at = some now;
    purge_after = some purge_after;
    origins = map retire a.origins;
  }

  -- Returns the number of live domains deleted with the application.
  unfoldable pub delete_application :
      Text → Bool → Time → Application → Tenancy → Result (ℕ × Tenancy)
  delete_application confirm_slug delete_domains now application tenancy = do
    raise_if (not (text_eq (strip confirm_slug) application.slug)) confirmation_mismatch
    let live = live_domains (some application.id) tenancy.store.domains
    raise_if (ltb 0 live && not delete_domains) (application_not_empty live)
    store ←
        delete_each application
          (map (λ d. d.id) (select (is_live_of application) tenancy.store.domains)) now
          tenancy.store
    let a =
        archived now (latest_purge application (now + tombstone_retention) store.domains)
          application
    ok (
      live,
      record {
        store = save_application a store;
        credentials =
            update (λ c. c.application_id == application.id) (revoke_at now) tenancy.credentials;
      },
    )

-- The targets of the live claims of an application, each once.
abbrev pub add_name : List Text → Text → List Text
add_name names target = if member target names then names else names ++ target ∷ []

abbrev pub live_targets : List OwnershipClaim → List Text
live_targets cs = map (λ c. c.cname_target) (select is_live_claim cs)

abbrev pub add_names : List Text → List Text → List Text
add_names names [] = names
add_names names (t ∷ ts) = add_names (add_name names t) ts

abbrev pub targets_of : Application → List Domain → List Text
targets_of application [] = []
targets_of application (d ∷ ds) =
    if is_live_of application d
    then live_targets d.claims ++ targets_of application ds
    else targets_of application ds

unfoldable pub edge_names : Application → Store → List Text
edge_names application store =
    add_names (application.cname_target ∷ []) (targets_of application store.domains)
