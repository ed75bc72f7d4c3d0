-- ===== src/Lifecycle/Preserve.antt =====
-- Every operation on a domain row keeps the invariant.
use custom_domain.Common.{
  ◌≤◌, ◌≡◌, ◌≢◌, refl, sym, ◌∙◌, ◌⊎◌, ◌&&◌, inl, inr, Bool, true, false, Option, none, some, List,
  arith, count, Text, Time, Bool-cases,
}
use custom_domain.Errors.{ok}
use custom_domain.Model.{
  DomainStatus, CheckType, CheckStatus, Reason, Details, DomainCheck, Domain, Log, type_eq,
  type_eq_iff, status_eq, status_eq_iff, is_passing, is_failing, is_deleted, active_claim,
}
use custom_domain.Lifecycle.Status.{
  by_type, has_passed, checks_passing, put_check, observed_check, with_check, demote,
  transition_status, record_check,
}
use custom_domain.Lifecycle.Sound.{
  IsSound, Evidence, Tombstoned, live_untombstoned, not_ready-Evidence, has_type,
  by_type-put_check_self, by_type-put_check_ne, count-put_check,
}

-- A successful transition is to the status asked for, of a row that is not deleted, and changes
-- nothing else of the row.
pub transition_status_ok :
    (new_status : DomainStatus) (reason : Option Reason) (now : Time) (d : Domain) (log : Log)
    {out : Domain × Log}
    → transition_status new_status reason now d log ≡ ok out
    → (out.0 ≡ record d { status = new_status }) × (is_deleted d ≡ false)
unfolding transition_status
transition_status_ok new_status reason now d log h =
    ground (arith, status_eq_iff new_status d.status)

transition_status-Evidence :
    (new_status : DomainStatus) (reason : Option Reason) (now : Time) (d : Domain) (log : Log)
    {out : Domain × Log}
    → Evidence d.status d
    → transition_status new_status reason now d log ≡ ok out
    → Evidence new_status d
unfolding transition_status
transition_status-Evidence new_status reason now d log e h = ground arith

-- What a status promises does not read the status that the row holds.
Evidence-of :
    (s : DomainStatus) (d : Domain) (t : DomainStatus)
    → Evidence s d
    → Evidence s (record d { status = t })
unfolding active_claim checks_passing
Evidence-of s d t e = ground arith

passed-put_check :
    (u : CheckType) (c : DomainCheck) (cs : List DomainCheck)
    → is_passing c.status ≡ true
    → count (has_type c.check_type) cs ≤ 1
    → has_passed (by_type u cs) ≡ true
    → has_passed (by_type u (put_check c cs)) ≡ true
passed-put_check u c cs p n h = elim (Bool-cases (type_eq c.check_type u)) [
  | inl same ↦ rw (← (type_eq_iff c.check_type u).0 same) (rw (by_type-put_check_self c cs n) p)
  | inr other ↦ rw (by_type-put_check_ne u c cs other) h
]

-- A transition that is allowed keeps a row sound.
pub transition_status-IsSound :
    (new_status : DomainStatus) (reason : Option Reason) (now : Time) (d : Domain) (log : Log)
    {out : Domain × Log}
    → IsSound d
    → transition_status new_status reason now d log ≡ ok out
    → IsSound out.0
unfolding is_deleted
transition_status-IsSound new_status reason now d log s h =
    let (same, live) = transition_status_ok new_status reason now d log h in
    let e = transition_status-Evidence new_status reason now d log s.evidence h in
    rw same (record {
      evidence = Evidence-of new_status d new_status e;
      tombstone = live_untombstoned d.deleted_at (record d { status = new_status }) live;
      one_live = s.one_live;
      each_check_once = s.each_check_once;
    })

Tombstoned_of :
    (o : Option Time) (d d' : Domain)
    → d.status ≡ d'.status
    → active_claim d ≡ active_claim d'
    → Tombstoned o d
    → Tombstoned o d'
Tombstoned_of none d d' p q t = tt
Tombstoned_of (some at) d d' p q t = (sym p ∙ t.0, sym q ∙ t.1)

-- With a passing check written, a status still has what it promises.
with_check-Evidence :
    (s : DomainStatus) (c : DomainCheck) (d : Domain)
    → is_passing c.status ≡ true
    → count (has_type c.check_type) d.checks ≤ 1
    → Evidence s d
    → Evidence s (with_check c d)
unfolding active_claim checks_passing
with_check-Evidence s c d p n e = ground (
  arith,
  passed-put_check CheckType.ownership c d.checks p n,
  passed-put_check CheckType.routing c d.checks p n,
  passed-put_check CheckType.certificate c d.checks p n,
  passed-put_check CheckType.origin c d.checks p n,
)

module _ (c : DomainCheck) (d : Domain) (s : IsSound d) where
  with_check_once : (t : CheckType) → count (has_type t) (put_check c d.checks) ≡ 1
  with_check_once t =
      count-put_check t c d.checks (s.each_check_once c.check_type) ∙ s.each_check_once t

  -- Apart from the evidence for `ready`, a written check disturbs nothing.
  with_check-IsSound : Evidence d.status (with_check c d) → IsSound (with_check c d)
  unfolding active_claim
  with_check-IsSound e = record {
    evidence = e;
    tombstone = Tombstoned_of d.deleted_at d (with_check c d) refl refl s.tombstone;
    one_live = s.one_live;
    each_check_once = with_check_once;
  }

passing_of :
    (status : CheckStatus) (b : Bool)
    → status ≢ CheckStatus.pending
    → (is_failing status && b) ≡ false
    → b ≡ true
    → is_passing status ≡ true
passing_of CheckStatus.pending b p k h = absurd (p refl)
passing_of CheckStatus.passing b p k h = refl
passing_of CheckStatus.failing b p k h = cc

-- What `record_check` writes besides the log is the check, and the status if that is demoted.
pub demote_ok :
    (t : CheckType) (status : CheckStatus) (at : Time) (d : Domain) (log : Log) {out : Domain × Log}
    → demote t status at d log ≡ ok out
    → ((out.0 ≡ record d { status = DomainStatus.attention_required }) × (is_deleted d ≡ false))
      ⊎ ((out.0 ≡ d) × ((is_failing status && status_eq d.status DomainStatus.ready) ≡ false))
unfolding demote
demote_ok t status at d log {out} h =
    elim (Bool-cases (is_failing status && status_eq d.status DomainStatus.ready)) [
      | inl failed ↦
          let moved : transition_status DomainStatus.attention_required
                (some (Reason.check_failed t)) at d log
              ≡ ok out =
            rw failed at h in
          inl (transition_status_ok DomainStatus.attention_required _ at d log moved)
      | inr kept ↦ let same : ok (d, log) ≡ ok out = rw kept at h in inr (ground arith, kept)
    ]

module _ (t : CheckType) (status : CheckStatus) (error_code : Option Text)
    (details : Option Details) (at : Time) (next : Option Time) (d : Domain) (log : Log)
    (s : IsSound d) where
  written : DomainCheck
  written = observed_check t status error_code details at next

  not_demoted-Evidence :
      status ≢ CheckStatus.pending
      → (is_failing status && status_eq d.status DomainStatus.ready) ≡ false
      → Evidence d.status (with_check written d)
  unfolding written observed_check
  not_demoted-Evidence p kept = elim (Bool-cases (status_eq d.status DomainStatus.ready)) [
    | inl ready ↦
        with_check-Evidence d.status written d
          (passing_of status (status_eq d.status DomainStatus.ready) p kept ready)
          (omega (arith, s.each_check_once t)) s.evidence
    | inr other ↦ not_ready-Evidence d.status (with_check written d) other
  ]

  -- Recording a passing or a failing check keeps a row sound: a ready row leaves `ready` when a
  -- check fails.
  pub record_check-IsSound :
      {out : Domain × Log}
      → status ≢ CheckStatus.pending
      → record_check t status error_code details at next d log ≡ ok out
      → IsSound out.0
  unfolding record_check written is_deleted
  record_check-IsSound p h = elim (demote_ok t status at (with_check written d) _ h) [
    | inl (moved, live) ↦ rw moved (record {
      evidence = tt;
      tombstone = live_untombstoned d.deleted_at _ live;
      one_live = s.one_live;
      each_check_once = with_check_once written d s;
    })
    | inr (same, kept) ↦ rw same (with_check-IsSound written d s (not_demoted-Evidence p kept))
  ]
