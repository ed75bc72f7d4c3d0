-- ===== src/Tests/Domains.antt =====
-- The theorems on domains and the database at concrete data.
use custom_domain.Common.{
  ℕ, ◌+◌, ◌≡◌, ◌↔◌, ◌≤◌, ◌<◌, ◌⊎◌, refl, true, false, ◌||◌, not, none, some, [], ◌∷◌, ◌++◌, arith,
  Time, codes, days, ltb, hours, seconds, strip, count, length, drop, All,
}
use custom_domain.Errors.{Error, ok, err, is_ok_value}
use custom_domain.Model.{
  DomainStatus, Domain, DomainEvent, EventType, Payload, Log, is_deleted, is_active_status,
}
use custom_domain.Hostname.{
  canonicalize, Canonical, encode_value, has_wildcard, remove_dot, looks_like_ip, check_ascii,
  lower, split_dot, label_ok, is_digits, last_label, customer_rules,
}
use custom_domain.Hostname.Laws.{IsCustomerName, canonicalize-IsCustomerName}
use custom_domain.Lifecycle.Events.{record_event}
use custom_domain.Lifecycle.Status.{is_serveable, application_active}
use custom_domain.Lifecycle.Claims.{reissue_claim, tombstone}
use custom_domain.Lifecycle.Sound.{IsSound, SameIdentity}
use custom_domain.Lifecycle.Steps.{delete, here, next, serveable_iff_ready}
use custom_domain.Lifecycle.Identity.{deleted_never_serveable}
use custom_domain.Lifecycle.Ownership.{tombstone-IsSound, tombstone-is_deleted}
use custom_domain.Lifecycle.Reissued.{reissue_claim_lem}
use custom_domain.Lifecycle.Reissued.{IsReissued}
use custom_domain.Lifecycle.Stamps.{record_event-after}
use custom_domain.Registry.{
  Store, claim_domain, live_domains, page, page_domains, get_domain, delete_domain, has_domain,
  clamp_limit, purge_tombstones, enforce_window, in_window, enforce, enforce_registration_limit,
  register,
}
use custom_domain.Registry.Steps.{
  here as untouched, next as onwards, claim, live_named, hostname_unique,
}
use custom_domain.Registry.ClaimLimits.{Within, IsFresh, claim_domain-Within, claim_domain-IsFresh}
use custom_domain.Registry.ReadLaws.{page_lem, page_domains-isolated, get_domain-isolated}
use custom_domain.Registry.PurgeLaws.{purge_tombstones_lem}
use custom_domain.Registry.Budgets.{enforce_window_lem}
use custom_domain.Tests.Data.{
  libs, draw_token, now, app, empty_log, empty, empty-IsRegistry, hostname, row, row-IsSound,
  served,
}

pub claiming :
    (out : Domain × Store) × (claim_domain libs draw_token
        (some 5)
        app
        hostname
        (codes "ws")
        none
        now
        empty
      ≡ ok out)
unfolding claim_domain canonicalize strip encode_value has_wildcard remove_dot looks_like_ip
    check_ascii lower split_dot label_ok is_digits last_label customer_rules enforce
    enforce_registration_limit live_domains enforce_window register
claiming =
    is_ok_value (claim_domain libs draw_token (some 5) app hostname (codes "ws") none now empty)
      refl

hostname_unique_example : count (live_named hostname) claiming.0.1.domains ≤ 1
hostname_unique_example =
    hostname_unique libs draw_token hostname empty-IsRegistry
      (onwards untouched (claim (some 5) app hostname (codes "ws") none now claiming.0 claiming.1))

claim_domain-IsFresh_example :
    (is_active_status app.status ≡ true)
    × IsFresh libs draw_token app hostname empty claiming.0.0
    × (claiming.0.1.domains ≡ empty.domains ++ claiming.0.0 ∷ [])
claim_domain-IsFresh_example =
    claim_domain-IsFresh libs draw_token (some 5) app hostname (codes "ws") none now empty
      claiming.1

claim_domain-Within_example :
    Within (some 3) (live_domains (some 1) claiming.0.1.domains)
    × Within (some 5) (live_domains none claiming.0.1.domains)
claim_domain-Within_example =
    claim_domain-Within libs draw_token (some 5) app hostname (codes "ws") none now empty claiming.1

canonical : canonicalize libs (some (codes " App.acme.com. ")) false ≡ Canonical.ok hostname
unfolding canonicalize strip encode_value has_wildcard remove_dot looks_like_ip check_ascii lower
    split_dot label_ok is_digits last_label customer_rules
canonical = refl

canonicalize-IsCustomerName_example : IsCustomerName libs hostname
canonicalize-IsCustomerName_example =
    canonicalize-IsCustomerName libs (some (codes " App.acme.com. ")) canonical

serveable_iff_ready_example : (is_serveable (some app) (tombstone now row empty_log).0 ≡ true) ↔ (
    (application_active (some app) ≡ true)
    × ((tombstone now row empty_log).0.status ≡ DomainStatus.ready))
serveable_iff_ready_example =
    serveable_iff_ready draw_token (some app) row-IsSound (next here (delete now empty_log))

deleted : Domain
deleted = (tombstone now row empty_log).0

deleted_never_serveable_example :
    (is_deleted deleted ≡ true) × (is_serveable (some app) deleted ≡ false)
unfolding deleted
deleted_never_serveable_example =
    deleted_never_serveable draw_token (some app) (tombstone now row empty_log).0
      (tombstone now row empty_log).0 (tombstone-IsSound now row empty_log row-IsSound)
      (tombstone-is_deleted now row empty_log) here

reissue_claim_lem_example :
    (out : Domain × Log) × (reissue_claim draw_token (codes "new.acme.net") now row empty_log
      ≡ ok out)
    × IsSound out.0
    × IsReissued draw_token (codes "new.acme.net") row empty_log out.0
    × SameIdentity row out.0
    × (10 ≤ out.1.next_id)
unfolding is_deleted
reissue_claim_lem_example =
    reissue_claim_lem draw_token (codes "new.acme.net") now row empty_log row-IsSound refl

record_event-after_example :
    (e : DomainEvent) × ((record_event EventType.recheck_requested
        (Payload.recheck (codes "api"))
        now
        row
        empty_log).events
      ≡ [] ++ e ∷ [])
    × (now ≤ e.created_at)
    × All (λ (f : DomainEvent). f.domain_id ≡ 4 → f.created_at < e.created_at) []
record_event-after_example =
    record_event-after EventType.recheck_requested (Payload.recheck (codes "api")) now row empty_log

page_lem_example :
    (length (page 500 0 (row ∷ row ∷ [])).0 ≤ 200)
    × ((page 500 0 (row ∷ row ∷ [])).0 ++ drop (0 + clamp_limit 500) (row ∷ row ∷ [])
        ≡ row ∷ row ∷ [])
    × (((page 500 0 (row ∷ row ∷ [])).1 ≡ true) ↔ (0 + clamp_limit 500 < 2))
page_lem_example = page_lem 500 0 (row ∷ row ∷ [])

page_domains-isolated_example :
    All
      (λ d. (d.application_id ≡ 1) × ((false || not (is_deleted d)) ≡ true))
      (page_domains app none none false 50 0 served).0
page_domains-isolated_example = page_domains-isolated app none none false 50 0 served

looked_up : get_domain app 4 false served ≡ ok row
unfolding get_domain is_deleted
looked_up = refl

get_domain-isolated_example :
    (row.id ≡ 4) × (row.application_id ≡ 1) × ((false || not (is_deleted row)) ≡ true)
get_domain-isolated_example = get_domain-isolated app 4 false served looked_up

-- The row in service, after its deletion.
deleting : (out : Domain × Store) × (delete_domain app 4 now served ≡ ok out)
unfolding delete_domain get_domain
deleting = is_ok_value (delete_domain app 4 now served) refl

present : get_domain app 4 true served ≡ ok row
unfolding get_domain is_deleted
present = refl

not_deleted : is_deleted row ≡ false
unfolding is_deleted
not_deleted = refl

purge_tombstones_lem_example :
    let kept = (purge_tombstones (now + days 90) deleting.0.1).1.domains in
    (has_domain 4 kept ≡ ltb (now + days 90) (now + days 90))
    × (length kept + (purge_tombstones (now + days 90) deleting.0.1).0 ≡ 1)
    × (live_domains none kept ≡ live_domains none deleting.0.1.domains)
    × ((a : ℕ) → live_domains (some a) kept ≡ live_domains (some a) deleting.0.1.domains)
purge_tombstones_lem_example =
    purge_tombstones_lem app 4 now (now + days 90) served present not_deleted deleting.1

abbrev requested : DomainEvent
requested = record {
  id = 9;
  domain_id = 4;
  application_id = 1;
  event_type = EventType.recheck_requested;
  payload = Payload.recheck (codes "api");
  created_at = now;
}

abbrev recent_rechecks : Time → ℕ
recent_rechecks at = count (in_window 1 EventType.recheck_requested (hours 1) at) (requested ∷ [])

enforce_window_lem_example :
    ((recent_rechecks now < 1)
      × (enforce_window 1 EventType.recheck_requested (hours 1) 1 now (requested ∷ []) ≡ ok tt))
    ⊎ ((1 ≤ recent_rechecks now)
        × (wait : ℕ) × (enforce_window 1 EventType.recheck_requested
              (hours 1)
              1
              now
              (requested ∷ [])
            ≡ err (Error.rate_limited wait))
        × (1 ≤ wait)
        × ((later : Time)
            → now + seconds wait ≤ later
            → recent_rechecks later < recent_rechecks now))
enforce_window_lem_example =
    enforce_window_lem 1 EventType.recheck_requested (hours 1) 1 now (requested ∷ []) (omega arith)
