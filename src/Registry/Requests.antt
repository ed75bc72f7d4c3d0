-- ===== src/Registry/Requests.antt =====
-- Operations of app/services/domains.py that find their row by its identifier.
use custom_domain.Common.{
  ℕ, Bool, true, false, ◌||◌, ◌&&◌, not, some, List, [], ◌∷◌, Text, Time, map, select, length,
  text_eq, any, ◌==◌,
}
use custom_domain.Errors.{Result, ok, ◌>>=◌, ◌>>◌, raise_if, invalid_status_transition}
use custom_domain.Model.{
  DomainStatus, EventType, Payload, Application, DomainCheck, Domain, status_eq, is_deleted,
  is_live_claim,
}
use custom_domain.Lifecycle.Events.{record_event}
use custom_domain.Lifecycle.Claims.{tombstone, reissue_claim}
use custom_domain.Registry.Tables.{Store, get_domain, save}
use custom_domain.Registry.Reads.{order_rows}
use custom_domain.Registry.Limits.{enforce_recheck_limits}

unfoldable pub delete_domain : Application → ℕ → Time → Store → Result (Domain × Store)
delete_domain application domain_id now store = do
  d ← get_domain application domain_id true store
  let s = tombstone now d store.log
  ok (s.0, save s store)

abbrev pub make_due : Time → DomainCheck → DomainCheck
make_due now c = record c { next_check_at = some now }

unfoldable pub request_recheck : Application → ℕ → Text → Time → Store → Result (Domain × Store)
request_recheck application domain_id requested_by now store = do
  d ← get_domain application domain_id true store
  raise_if (is_deleted d || status_eq d.status DomainStatus.deleting) invalid_status_transition
  enforce_recheck_limits d now store.log.events
  let d' = record d { checks = map (make_due now) d.checks }
  let log = record_event EventType.recheck_requested (Payload.recheck requested_by) now d' store.log
  ok (d', save (d', log) store)

module _ (token_urlsafe : ℕ → ℕ → Text) where
  unfoldable pub reissue : Application → ℕ → Time → Store → Result Store
  reissue application domain_id now store = do
    d ← get_domain application domain_id false store
    s ← reissue_claim token_urlsafe application.cname_target now d store.log
    ok (save s store)

  -- A row with a live claim that names another target than the application's.
  abbrev pub is_stale : Application → Domain → Bool
  is_stale application d =
      d.application_id == application.id
      && not (is_deleted d)
      && any (λ c. is_live_claim c && not (text_eq c.cname_target application.cname_target))
          d.claims

  unfoldable pub reissue_all : Application → List Domain → Time → Store → Result Store
  reissue_all application [] now store = ok store
  reissue_all application (d ∷ ds) now store =
      reissue application d.id now store >>= reissue_all application ds now

  -- Returns how many rows were re-issued.
  unfoldable pub reissue_claims_for_target : Application → Time → Store → Result (ℕ × Store)
  reissue_claims_for_target application now store = do
    let stale = order_rows (select (is_stale application) store.domains)
    store' ← reissue_all application stale now store
    ok (length stale, store')
