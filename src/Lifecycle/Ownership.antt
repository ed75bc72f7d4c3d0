-- ===== src/Lifecycle/Ownership.antt =====
-- Ownership operations keep the invariant: verification, revocation, tombstones and new material.
use custom_domain.Common.{
  ◌≤◌, ◌≡◌, refl, sym, ap, inl, inr, true, false, none, some, arith, count, subst, is_some, codes,
  le_trans, Text, Time, Bool-cases, Option-cases,
}
use custom_domain.Errors.{ok}
use custom_domain.Model.{
  DomainStatus, CheckType, OwnershipClaim, Domain, Log, is_live_claim, is_deleted, active_claim,
  EventType, Payload,
}
use custom_domain.Lifecycle.Status.{checks_passing}
use custom_domain.Lifecycle.Claims.{
  put_live_claim, with_claim, verified_claim, revoked_claim, mark_claim_verified, revoke_live_claim,
  marked_deleted, tombstone,
}
use custom_domain.Lifecycle.Events.{record_event-next_id}
use custom_domain.Lifecycle.Sound.{
  IsSound, SameIdentity, SameIdentity-refl, SameIdentity-trans, Evidence, Tombstoned, has_type,
  live_untombstoned, first-count, count-put_live_claim, first-put_live_claim, first-put_dead_claim,
}

module _ (now : Time) (d : Domain) (log : Log) where
  -- The row that a verification writes.
  pub mark_claim_verified_ok :
      (method : Text) {out : Domain × Log}
      → mark_claim_verified method now d log ≡ ok out
      → (claim : OwnershipClaim) × (active_claim d ≡ some claim)
        × (is_deleted d ≡ false)
        × (out.0 ≡ with_claim (verified_claim method now claim) d)
  unfolding mark_claim_verified
  mark_claim_verified_ok method {out} h = elim (Option-cases (active_claim d)) [
    | inl missing ↦ absurd (ground arith)
    | inr (claim, found) ↦ (claim, found, ground arith, ground arith)
  ]

  revoke_live_claim_found :
      (reason : Text) {claim : OwnershipClaim}
      → active_claim d ≡ some claim
      → (revoke_live_claim reason now d log).0 ≡ with_claim (revoked_claim now claim) d
  unfolding revoke_live_claim
  revoke_live_claim_found reason found = rw (found, revoke_live_claim)

  revoke_live_claim_missing :
      (reason : Text) → active_claim d ≡ none → (revoke_live_claim reason now d log).0 ≡ d
  unfolding revoke_live_claim
  revoke_live_claim_missing reason missing = rw (missing, revoke_live_claim)

  -- A revocation leaves no live claim.
  pub revoke_live_claim-none :
      (reason : Text)
      → count is_live_claim d.claims ≤ 1
      → active_claim (revoke_live_claim reason now d log).0 ≡ none
  unfolding active_claim
  revoke_live_claim-none reason n = elim (Option-cases (active_claim d)) [
    | inl missing ↦ rw (revoke_live_claim_missing reason missing) missing
    | inr (claim, found) ↦ rw (revoke_live_claim_found reason found) (
        first-count (put_live_claim (revoked_claim now claim) d.claims)
          (first-put_dead_claim (revoked_claim now claim) d.claims n refl))
  ]

  -- It leaves everything else of the row alone.
  pub revoke_live_claim_keeps :
      (reason : Text)
      → let d' = (revoke_live_claim reason now d log).0 in
        (d'.status ≡ d.status)
        × (d'.checks ≡ d.checks)
        × (d'.deleted_at ≡ d.deleted_at)
        × (count is_live_claim d'.claims ≤ count is_live_claim d.claims)
  revoke_live_claim_keeps reason = elim (Option-cases (active_claim d)) [
    | inl missing ↦ rw (revoke_live_claim_missing reason missing) (refl, refl, refl, omega arith)
    | inr (claim, found) ↦
        rw (revoke_live_claim_found reason found)
          (refl, refl, refl, count-put_live_claim (revoked_claim now claim) d.claims)
  ]

  pub revoke_live_claim-SameIdentity :
      (reason : Text) → SameIdentity d (revoke_live_claim reason now d log).0
  unfolding is_deleted
  revoke_live_claim-SameIdentity reason = elim (Option-cases (active_claim d)) [
    | inl missing ↦ rw (revoke_live_claim_missing reason missing) (SameIdentity-refl d)
    | inr (claim, found) ↦ rw (revoke_live_claim_found reason found) (ground arith)
  ]

  pub revoke_live_claim-next_id :
      (reason : Text) → log.next_id ≤ (revoke_live_claim reason now d log).1.next_id
  unfolding revoke_live_claim
  revoke_live_claim-next_id reason = elim (Option-cases (active_claim d)) [
    | inl missing ↦ rw (missing, revoke_live_claim) (omega arith)
    | inr (claim, found) ↦
        rw (found, revoke_live_claim)
          (omega (
            arith,
            record_event-next_id EventType.claim_revoked (Payload.revoked claim.id reason) now
                (with_claim (revoked_claim now claim) d) log,
          ))
  ]

  with_verified-Evidence :
      (s : DomainStatus) (method : Text) (claim : OwnershipClaim)
      → active_claim d ≡ some claim
      → Evidence s d
      → Evidence s (with_claim (verified_claim method now claim) d)
  unfolding active_claim checks_passing
  with_verified-Evidence s method claim found e =
      ground (arith, first-put_live_claim (verified_claim method now claim) d.claims)

  -- Verifying the live claim keeps a row sound.
  pub mark_claim_verified-IsSound :
      (method : Text) {out : Domain × Log}
      → IsSound d
      → mark_claim_verified method now d log ≡ ok out
      → IsSound out.0
  unfolding is_deleted
  mark_claim_verified-IsSound method s h =
      let (claim, found, live, same) = mark_claim_verified_ok method h in
      let verified = verified_claim method now claim in
      rw same (record {
        evidence = with_verified-Evidence d.status method claim found s.evidence;
        tombstone = live_untombstoned d.deleted_at _ live;
        one_live = le_trans (count-put_live_claim verified d.claims) s.one_live;
        each_check_once = s.each_check_once;
      })

module _ (now : Time) (d : Domain) (log : Log) (s : IsSound d) where
  marked_revoked-IsSound :
      let d' = (revoke_live_claim (codes "deleted") now (marked_deleted now d) log).0 in IsSound d'
  marked_revoked-IsSound =
      let m = marked_deleted now d in
      let d' = (revoke_live_claim (codes "deleted") now m log).0 in
      let (status, checks, deleted, fewer) = revoke_live_claim_keeps now m log (codes "deleted") in
      record {
        evidence = subst (λ t. Evidence t d') (sym status) tt;
        tombstone =
            subst (λ o. Tombstoned o d') (sym deleted)
              (status, revoke_live_claim-none now m log (codes "deleted") s.one_live);
        one_live = le_trans fewer s.one_live;
        each_check_once =
            subst (λ cs. (t : CheckType) → count (has_type t) cs ≡ 1) (sym checks)
              s.each_check_once;
      }

  -- Deleting a row, or deleting it again, leaves it sound.
  pub tombstone-IsSound : IsSound (tombstone now d log).0
  unfolding tombstone
  tombstone-IsSound = elim (Bool-cases (is_deleted d)) [
    | inl gone ↦ rw (gone, tombstone) s
    | inr live ↦ rw (live, tombstone) marked_revoked-IsSound
  ]

module _ (now : Time) (d : Domain) (log : Log) where
  pub tombstone-SameIdentity : SameIdentity d (tombstone now d log).0
  unfolding tombstone is_deleted
  tombstone-SameIdentity = elim (Bool-cases (is_deleted d)) [
    | inl gone ↦ rw (gone, tombstone) (SameIdentity-refl d)
    | inr live ↦
        rw (live, tombstone)
          (SameIdentity-trans (ground arith)
            (revoke_live_claim-SameIdentity now (marked_deleted now d) log (codes "deleted")))
  ]

  -- A deleted row is marked so, and keeps its mark and its retention when it is deleted again.
  pub tombstone-is_deleted : is_deleted (tombstone now d log).0 ≡ true
  unfolding tombstone is_deleted
  tombstone-is_deleted = elim (Bool-cases (is_deleted d)) [
    | inl gone ↦ rw (gone, tombstone) gone
    | inr live ↦
        rw (live, tombstone)
          (ap is_some (revoke_live_claim_keeps now (marked_deleted now d) log (codes "deleted")).2)
  ]
