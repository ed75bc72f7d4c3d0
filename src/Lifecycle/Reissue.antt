-- ===== src/Lifecycle/Reissue.antt =====
-- Re-issuing ownership material: the row leaves `ready`, and every check and the claim start afresh.
use custom_domain.Common.{
  ◌≤◌, ◌≡◌, ◌≢◌, refl, ◌∙◌, inl, inr, false, Option, none, some, List, arith, count, Time,
  Bool-cases, if◌then◌else◌,
}
use custom_domain.Errors.{ok}
use custom_domain.Model.{
  DomainStatus, CheckType, CheckStatus, Reason, DomainCheck, Domain, Log, is_deleted, status_eq,
  type_eq, type_eq_iff, EventType, Payload, check,
}
use custom_domain.Lifecycle.Status.{
  check_types, by_type, put_check, observed_check, with_check, demote, transition_status,
  record_check, previous_status, reset_on_reissue,
}
use custom_domain.Lifecycle.Claims.{reissued_details, reset_check, reset_checks}
use custom_domain.Lifecycle.Events.{record_event, record_event-next_id}
use custom_domain.Lifecycle.Sound.{
  has_type, count-put_check, by_type-put_check_self, by_type-put_check_ne,
}

-- A check as the loop over the check types leaves it.
abbrev pub reset : Time → CheckType → DomainCheck
reset now t = observed_check t CheckStatus.pending none (some reissued_details) now none

abbrev pub reset_row : Time → Domain → Domain
reset_row now d = with_check (reset now CheckType.origin) (
    with_check (reset now CheckType.certificate)
      (with_check (reset now CheckType.routing) (with_check (reset now CheckType.ownership) d)))

-- The check of a type is there, and pending.
abbrev pub IsPending : Option DomainCheck → Type 0
IsPending none = ⊥
IsPending (some c) = c.status ≡ CheckStatus.pending

module _ (now : Time) where
  reset_check_ok :
      (t : CheckType) (d : Domain) (log : Log)
      → (log' : Log) × (reset_check now t (d, log) ≡ ok (with_check (reset now t) d, log'))
        × (log.next_id ≤ log'.next_id)
  unfolding record_check demote observed_check
  reset_check_ok t d log =
      let c = reset now t in
      (
        record_event EventType.check_updated
            (Payload.check_updated t (previous_status (check t d)) CheckStatus.pending none) now
            (with_check c d) log,
        refl,
        omega (
          arith,
          record_event-next_id EventType.check_updated
              (Payload.check_updated t (previous_status (check t d)) CheckStatus.pending none) now
              (with_check c d) log,
        ),
      )

  pub reset_checks_ok :
      (d : Domain) (log : Log)
      → (log' : Log) × (reset_checks now check_types (d, log) ≡ ok (reset_row now d, log'))
        × (log.next_id ≤ log'.next_id)
  unfolding reset_checks
  reset_checks_ok d log =
      let d₁ = with_check (reset now CheckType.ownership) d in
      let d₂ = with_check (reset now CheckType.routing) d₁ in
      let d₃ = with_check (reset now CheckType.certificate) d₂ in
      let (log₁, e₁, n₁) = reset_check_ok CheckType.ownership d log in
      let (log₂, e₂, n₂) = reset_check_ok CheckType.routing d₁ log₁ in
      let (log₃, e₃, n₃) = reset_check_ok CheckType.certificate d₂ log₂ in
      let (log₄, e₄, n₄) = reset_check_ok CheckType.origin d₃ log₃ in
      (log₄, rw (e₁, e₂, e₃, e₄) refl, omega arith)

  put_reset-IsPending :
      (u t : CheckType) (cs : List DomainCheck)
      → count (has_type t) cs ≤ 1
      → IsPending (by_type u cs)
      → IsPending (by_type u (put_check (reset now t) cs))
  unfolding observed_check
  put_reset-IsPending u t cs n h = elim (Bool-cases (type_eq t u)) [
    | inl same ↦
        rw (← (type_eq_iff t u).0 same) (rw (by_type-put_check_self (reset now t) cs n) refl)
    | inr other ↦ rw (by_type-put_check_ne u (reset now t) cs other) h
  ]

  put_reset_self :
      (t : CheckType) (cs : List DomainCheck)
      → count (has_type t) cs ≤ 1
      → IsPending (by_type t (put_check (reset now t) cs))
  unfolding observed_check
  put_reset_self t cs n = rw (by_type-put_check_self (reset now t) cs n) refl

  module _ (d : Domain) (n : (t : CheckType) → count (has_type t) d.checks ≡ 1) where
    -- The checks after one, two, three and four rounds.
    abbrev round : CheckType → List DomainCheck → List DomainCheck
    round t = put_check (reset now t)

    once :
        (t u : CheckType) (cs : List DomainCheck)
        → ((v : CheckType) → count (has_type v) cs ≡ 1)
        → count (has_type u) (put_check (reset now t) cs) ≡ 1
    unfolding observed_check
    once t u cs k = count-put_check u (reset now t) cs (k t) ∙ k u

    abbrev cs₁ : List DomainCheck
    cs₁ = round CheckType.ownership d.checks

    abbrev cs₂ : List DomainCheck
    cs₂ = round CheckType.routing cs₁

    abbrev cs₃ : List DomainCheck
    cs₃ = round CheckType.certificate cs₂

    n₁ : (u : CheckType) → count (has_type u) cs₁ ≡ 1
    n₁ u = once CheckType.ownership u d.checks n

    n₂ : (u : CheckType) → count (has_type u) cs₂ ≡ 1
    n₂ u = once CheckType.routing u cs₁ n₁

    n₃ : (u : CheckType) → count (has_type u) cs₃ ≡ 1
    n₃ u = once CheckType.certificate u cs₂ n₂

    pub reset_row_once : (u : CheckType) → count (has_type u) (reset_row now d).checks ≡ 1
    reset_row_once u = once CheckType.origin u cs₃ n₃

    -- A pending check stays pending in the later rounds.
    last_round :
        (u : CheckType) → IsPending (by_type u cs₃) → IsPending (by_type u (reset_row now d).checks)
    last_round u h =
        put_reset-IsPending u CheckType.origin cs₃ (omega (arith, n₃ CheckType.origin)) h

    third_round : (u : CheckType) → IsPending (by_type u cs₂) → IsPending (by_type u cs₃)
    third_round u h =
        put_reset-IsPending u CheckType.certificate cs₂ (omega (arith, n₂ CheckType.certificate)) h

    second_round : (u : CheckType) → IsPending (by_type u cs₁) → IsPending (by_type u cs₂)
    second_round u h =
        put_reset-IsPending u CheckType.routing cs₁ (omega (arith, n₁ CheckType.routing)) h

    pub reset_row-IsPending : (u : CheckType) → IsPending (by_type u (reset_row now d).checks)
    reset_row-IsPending CheckType.ownership = last_round _ (
        third_round _ (
          second_round _
            (put_reset_self CheckType.ownership d.checks (omega (arith, n CheckType.ownership)))))
    reset_row-IsPending CheckType.routing =
        last_round _ (
          third_round _
            (put_reset_self CheckType.routing cs₁ (omega (arith, n₁ CheckType.routing))))
    reset_row-IsPending CheckType.certificate =
        last_round _
          (put_reset_self CheckType.certificate cs₂ (omega (arith, n₂ CheckType.certificate)))
    reset_row-IsPending CheckType.origin =
        put_reset_self CheckType.origin cs₃ (omega (arith, n₃ CheckType.origin))

  -- After the loop a row goes back to `pending_dns` from the three statuses that build on the claim.
  abbrev pub after_reissue : DomainStatus → DomainStatus
  after_reissue s = if reset_on_reissue s then DomainStatus.pending_dns else s

  pub move_back_ok :
      (d : Domain) (log : Log)
      → is_deleted d ≡ false
      → (log' : Log) × ((if reset_on_reissue d.status
            then transition_status DomainStatus.pending_dns (some Reason.claim_reissued) now d log
            else ok (d, log))
          ≡ ok (record d { status = after_reissue d.status }, log'))
        × (log.next_id ≤ log'.next_id)
  unfolding transition_status
  move_back_ok d log live = elim (Bool-cases (reset_on_reissue d.status)) [
    | inl back ↦
        let d' = record d { status = DomainStatus.pending_dns } in
        let p =
          Payload.status_changed d.status DomainStatus.pending_dns (some Reason.claim_reissued) in
        (
          record_event EventType.status_changed p now d' log,
          ground arith,
          omega (arith, record_event-next_id EventType.status_changed p now d' log),
        )
    | inr stay ↦ (log, ground arith, omega arith)
  ]

  pub after_reissue-ne-ready : (s : DomainStatus) → after_reissue s ≢ DomainStatus.ready
  after_reissue-ne-ready s = ground arith

  pub after_reissue_not_ready :
      (s : DomainStatus) → status_eq (after_reissue s) DomainStatus.ready ≡ false
  after_reissue_not_ready s = ground arith
