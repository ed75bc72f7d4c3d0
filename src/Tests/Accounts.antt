-- ===== src/Tests/Accounts.antt =====
-- The theorems on applications at concrete data.
use custom_domain.Common.{
  ℕ, ◌==◌, ◌≡◌, ◌⊎◌, refl, true, false, none, some, [], ◌∷◌, Text, Time, codes, All, strip,
  is_space, text_eq,
}
use custom_domain.Errors.{ok, is_ok, is_ok_value}
use custom_domain.Model.{CredentialScope, ApiCredential, is_usable, is_deleted}
use custom_domain.Hostname.{
  canonicalize, encode_value, has_wildcard, remove_dot, looks_like_ip, check_ascii, lower,
  split_dot, label_ok, is_digits, last_label, Canonical, full_label,
}
use custom_domain.Registry.{live_domains, delete_domain, get_domain}
use custom_domain.Registry.Sound.{IsRegistry}
use custom_domain.Tenants.Applications.{
  Tenancy, create_application, delete_application, is_slug, delete_each,
}
use custom_domain.Tenants.ApplicationLaws.{confirmed, Closed, delete_application_lem}
use custom_domain.Tenants.SlugLaws.{deleted_slug_is_free}
use custom_domain.Tests.Data.{libs, now, app, served, served-IsRegistry}

abbrev key : ApiCredential
key = record {
  id = 8;
  application_id = 1;
  label = codes "ci";
  key_prefix = codes "cd_abcdefgh";
  key_hash = codes "hash";
  scope = CredentialScope.full;
  last_used_at = none;
  expires_at = none;
  revoked_at = none;
}

abbrev tenancy : Tenancy
tenancy = record { store = served; credentials = key ∷ [] }

abbrev id_hex : ℕ → Text
id_hex n = codes "0123456789abcdef"

delete_application_lem_example :
    let go = confirmed id_hex (codes "acme") true now app tenancy in
    let done = delete_application id_hex (codes "acme") true now app tenancy in
    ((go ≡ false) × (is_ok done ≡ false))
    ⊎ ((go ≡ true)
        × ((out : Tenancy) × (done ≡ ok (live_domains (some 1) served.domains, out))
            × IsRegistry out.store
            × (live_domains (some 1) out.store.domains ≡ 0)
            × ((at : Time)
                → All
                    (λ c. (c.application_id == 1) ≡ true → is_usable at c ≡ false)
                    out.credentials)
            × All (λ r. (r.id == 1) ≡ true → Closed r) out.store.applications))
delete_application_lem_example =
    delete_application_lem id_hex (codes "acme") true now app tenancy served-IsRegistry

closing :
    (out : ℕ × Tenancy) × (delete_application id_hex (codes "acme") true now app tenancy ≡ ok out)
unfolding delete_application live_domains is_deleted delete_each delete_domain get_domain strip
    is_space
closing = is_ok_value (delete_application id_hex (codes "acme") true now app tenancy) refl

target :
    canonicalize libs (some (codes "edge.acme.net")) true ≡ Canonical.ok (codes "edge.acme.net")
unfolding canonicalize strip encode_value has_wildcard remove_dot looks_like_ip check_ascii lower
    split_dot label_ok is_digits last_label
target = refl

slugged : is_slug (codes "acme") ≡ true
unfolding is_slug full_label
slugged = refl

named : text_eq (strip (codes "Acme")) [] ≡ false
unfolding strip
named = refl

deleted_slug_is_free_example :
    is_ok (
      create_application libs
        (codes "acme")
        (codes "Acme")
        (codes "edge.acme.net")
        closing.0.1.store)
    ≡ true
deleted_slug_is_free_example =
    deleted_slug_is_free id_hex app libs (codes "acme") true now tenancy closing.0 (codes "Acme")
      (codes "edge.acme.net") (codes "edge.acme.net") slugged ((λ h. cc), tt) closing.1 named target
