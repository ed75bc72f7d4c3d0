-- ===== src/Registry/Keeps.antt =====
-- Every operation on the database keeps its invariant.
use custom_domain.Common.{
  ℕ, ◌≤◌, ◌≡◌, refl, subst, inl, inr, true, Option, none, some, List, [], ◌∷◌, arith, Text, Time,
  first-All, map, Bool-cases, count, codes, ◌+◌, ◌∙◌,
}
use custom_domain.Errors.{ok, >>=-ok}
use custom_domain.Model.{
  CheckType, Application, DomainCheck, Domain, Log, EventType, Payload, is_deleted, active_claim,
}
use custom_domain.Lifecycle.Events.{record_event, record_event-next_id}
use custom_domain.Lifecycle.Status.{by_type, has_passed, checks_passing}
use custom_domain.Lifecycle.Claims.{tombstone, revoke_live_claim}
use custom_domain.Lifecycle.Sound.{IsSound, SameIdentity, has_type}
use custom_domain.Lifecycle.Ownership.{
  tombstone-IsSound, tombstone-SameIdentity, revoke_live_claim-next_id,
}
use custom_domain.Registry.Tables.{Store, visible, get_domain, save}
use custom_domain.Registry.Requests.{delete_domain, request_recheck, make_due}
use custom_domain.Registry.Sound.{IsRegistry, save-IsRegistry, get_domain_ok}
use custom_domain.Lifecycle.Claims.{marked_deleted, tombstone_retention}

tombstone-next_id :
    (now : Time) (d : Domain) (log : Log) → log.next_id ≤ (tombstone now d log).1.next_id
unfolding tombstone
tombstone-next_id now d log = elim (Bool-cases (is_deleted d)) [
  | inl gone ↦ rw (gone, tombstone) (omega arith)
  | inr live ↦
      let m = marked_deleted now d in
      let s = revoke_live_claim (codes "deleted") now m log in
      rw (live, tombstone)
        (omega (
          arith,
          revoke_live_claim-next_id now m log (codes "deleted"),
          record_event-next_id EventType.domain_deleted
              (Payload.deleted d.hostname (now + tombstone_retention)) now s.0 s.1,
        ))
]

-- Deleting a domain keeps the database sound.
pub delete_domain-IsRegistry :
    (a : Application) (id : ℕ) (now : Time) (store : Store) {out : Domain × Store}
    → IsRegistry store
    → delete_domain a id now store ≡ ok out
    → IsRegistry out.1
unfolding delete_domain
delete_domain-IsRegistry a id now store {out} r h =
    let (d, got, rest) = >>=-ok (get_domain a id true store) _ h in
    let found = get_domain_ok a id true store got in
    let sound = first-All IsSound (visible a.id id true) store.domains found r.sound in
    let s = tombstone now d store.log in
    let e : save s store ≡ out.1 = ground arith in
    subst IsRegistry e (
      save-IsRegistry (visible a.id id true) d s store r found
        (tombstone-SameIdentity now d store.log) (tombstone-IsSound now d store.log sound)
        (tombstone-next_id now d store.log))

count-make_due :
    (now : Time) (t : CheckType) (cs : List DomainCheck)
    → count (has_type t) (map (make_due now) cs) ≡ count (has_type t) cs
count-make_due now t [] = refl
count-make_due now t (c ∷ cs) = ground (arith, count-make_due now t cs)

abbrev due : Time → Option DomainCheck → Option DomainCheck
due now none = none
due now (some c) = some (make_due now c)

by_type-map-due :
    (now : Time) (t : CheckType) (cs : List DomainCheck)
    → by_type t (map (make_due now) cs) ≡ due now (by_type t cs)
unfolding by_type
by_type-map-due now t [] = refl
by_type-map-due now t (c ∷ cs) = ground (arith, by_type-map-due now t cs)

by_type-make_due :
    (now : Time) (t : CheckType) (cs : List DomainCheck)
    → has_passed (by_type t (map (make_due now) cs)) ≡ has_passed (by_type t cs)
by_type-make_due now t cs = rw (by_type-map-due now t cs) (ground arith)

made_due-IsSound :
    (now : Time) (d : Domain)
    → IsSound d
    → let d' = record d { checks = map (make_due now) d.checks } in IsSound d' × SameIdentity d d'
unfolding active_claim checks_passing is_deleted
made_due-IsSound now d s = (
  record {
    evidence = ground (
      arith,
      s.evidence,
      by_type-make_due now CheckType.ownership d.checks,
      by_type-make_due now CheckType.routing d.checks,
      by_type-make_due now CheckType.certificate d.checks,
      by_type-make_due now CheckType.origin d.checks,
    );
    tombstone = ground (arith, s.tombstone);
    one_live = s.one_live;
    each_check_once = λ t. count-make_due now t d.checks ∙ s.each_check_once t;
  },
  ground arith,
)

-- Asking for a recheck keeps the database sound.
pub request_recheck-IsRegistry :
    (a : Application) (id : ℕ) (by : Text) (now : Time) (store : Store) {out : Domain × Store}
    → IsRegistry store
    → request_recheck a id by now store ≡ ok out
    → IsRegistry out.1
unfolding request_recheck
request_recheck-IsRegistry a id by now store {out} r h =
    let (d, got, rest) = >>=-ok (get_domain a id true store) _ h in
    let found = get_domain_ok a id true store got in
    let sound = first-All IsSound (visible a.id id true) store.domains found r.sound in
    let (due, same) = made_due-IsSound now d sound in
    let d' = record d { checks = map (make_due now) d.checks } in
    let payload = Payload.recheck by in
    let log = record_event EventType.recheck_requested payload now d' store.log in
    let e : save (d', log) store ≡ out.1 = ground arith in
    subst IsRegistry e (
      save-IsRegistry (visible a.id id true) d (d', log) store r found same due
        (omega (arith, record_event-next_id EventType.recheck_requested payload now d' store.log)))
