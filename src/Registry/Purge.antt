-- ===== src/Registry/Purge.antt =====
-- `purge_tombstones` of app/services/domains.py, with what the foreign keys delete along. The cache
-- of DNS zones is not part of the store.
use custom_domain.Common.{
  ℕ, Bool, false, not, ◌&&◌, Option, none, some, List, ◌==◌, leb, Time, select, any, count, is_some,
}
use custom_domain.Model.{Application, Domain, WebhookSubscription, Log, is_deleted}
use custom_domain.Registry.Tables.{Store}

-- `purge_after <= now`; a comparison with NULL is not true.
abbrev pub past : Option Time → Time → Bool
past none now = false
past (some at) now = leb at now

abbrev pub is_purgeable : Time → Domain → Bool
is_purgeable now d = is_deleted d && past d.purge_after now

-- A deleted application past its retention, with none of its domains left.
abbrev pub is_purgeable_application : Time → List Domain → Application → Bool
is_purgeable_application now rows a =
    is_some a.deleted_at && past a.purge_after now && not (any (λ d. d.application_id == a.id) rows)

-- Whether a row with the identifier is still there.
abbrev pub has_domain : ℕ → List Domain → Bool
has_domain id rows = any (λ d. d.id == id) rows

abbrev pub has_application : ℕ → List Application → Bool
has_application id rows = any (λ a. a.id == id) rows

abbrev pub has_subscription : ℕ → List WebhookSubscription → Bool
has_subscription id rows = any (λ s. s.id == id) rows

-- ON DELETE CASCADE: events go with their domain or application, subscriptions with their
-- application, deliveries with their subscription or application.
unfoldable pub cascade : List Application → List Domain → Log → Log
cascade applications domains log =
    let subscriptions =
      select (λ s. has_application s.application_id applications) log.subscriptions in
    record log {
      events =
          select
            (λ e. has_domain e.domain_id domains && has_application e.application_id applications)
            log.events;
      subscriptions = subscriptions;
      deliveries =
          select
            (λ v.
              has_subscription v.subscription_id subscriptions
              && has_application v.application_id applications)
            log.deliveries;
    }

-- Returns the number of domains removed.
unfoldable pub purge_tombstones : Time → Store → ℕ × Store
unfolding cascade
purge_tombstones now store =
    let domains = select (λ d. not (is_purgeable now d)) store.domains in
    let applications =
      select (λ a. not (is_purgeable_application now domains a)) store.applications in
    (
      count (is_purgeable now) store.domains,
      record {
        applications = applications;
        domains = domains;
        log = cascade applications domains store.log;
      },
    )
