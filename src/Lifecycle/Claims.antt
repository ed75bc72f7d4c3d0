-- ===== src/Lifecycle/Claims.antt =====
-- app/services/domains.py: ownership claims and the tombstone, on one row and the log.
use custom_domain.Common.{
  ℕ, suc, ◌+◌, none, some, List, [], ◌∷◌, ◌++◌, Text, Time, days, codes, if◌then◌else◌,
}
use custom_domain.Errors.{Result, ok, err, ◌>>=◌, invalid_status_transition}
use custom_domain.Model.{
  DomainStatus, ClaimStatus, CheckType, CheckStatus, EventType, Reason, Details, OwnershipClaim,
  Domain, Payload, Log, is_deleted, is_live_claim, active_claim,
}
use custom_domain.Lifecycle.Events.{record_event}
use custom_domain.Lifecycle.Status.{reset_on_reissue, check_types, transition_status, record_check}

-- Writes the live claim back, the first that is not revoked.
unfoldable pub put_live_claim : OwnershipClaim → List OwnershipClaim → List OwnershipClaim
put_live_claim c [] = []
put_live_claim c (d ∷ ds) = if is_live_claim d then c ∷ ds else d ∷ put_live_claim c ds

abbrev pub with_claim : OwnershipClaim → Domain → Domain
with_claim c d = record d { claims = put_live_claim c d.claims }

abbrev pub verified_claim : Text → Time → OwnershipClaim → OwnershipClaim
verified_claim method now claim = record claim {
  status = ClaimStatus.verified;
  verification_method = some method;
  verified_at = some now;
}

abbrev pub revoked_claim : Time → OwnershipClaim → OwnershipClaim
revoked_claim now claim = record claim { status = ClaimStatus.revoked; revoked_at = some now }

unfoldable pub mark_claim_verified : Text → Time → Domain → Log → Result (Domain × Log)
mark_claim_verified method now d log = elim (active_claim d) [
  | none ↦ err invalid_status_transition
  | some claim ↦
      let d' = with_claim (verified_claim method now claim) d in
      if is_deleted d
      then err invalid_status_transition
      else ok
          (d', record_event EventType.claim_verified (Payload.verified claim.id method) now d' log)
]

unfoldable pub revoke_live_claim : Text → Time → Domain → Log → Domain × Log
revoke_live_claim reason now d log = elim (active_claim d) [
  | none ↦ (d, log)
  | some claim ↦
      let d' = with_claim (revoked_claim now claim) d in
      (d', record_event EventType.claim_revoked (Payload.revoked claim.id reason) now d' log)
]

abbrev pub challenge_label : Text
challenge_label = codes "_custom-domain-challenge."

abbrev pub claim_token_bytes : ℕ
claim_token_bytes = 32

abbrev pub reissued_details : Details
reissued_details = record {
  attempts = none;
  failing_since = none;
  observed = [];
  reason = some Reason.claim_reissued;
}

-- One round of the loop of `reissue_claim` over the check types.
abbrev pub reset_check : Time → CheckType → Domain × Log → Result (Domain × Log)
reset_check now t (d, log) =
    record_check t CheckStatus.pending none (some reissued_details) now none d log

unfoldable pub reset_checks : Time → List CheckType → Domain × Log → Result (Domain × Log)
reset_checks now [] s = ok s
reset_checks now (t ∷ ts) s = reset_check now t s >>= reset_checks now ts

-- `secrets.token_urlsafe`, by the number of bytes and the draw.
module _ (token_urlsafe : ℕ → ℕ → Text) where
  unfoldable pub issue_claim : Text → Time → Domain → Log → Domain × Log
  issue_claim cname_target now d log =
      let claim : OwnershipClaim = record {
        id = log.next_id;
        txt_record_name = challenge_label ++ d.hostname;
        token = token_urlsafe claim_token_bytes log.next_id;
        cname_target = cname_target;
        status = ClaimStatus.pending;
        verification_method = none;
        verified_at = none;
        revoked_at = none;
        created_at = now;
      } in
      let d' = record d { claims = d.claims ++ claim ∷ [] } in
      (
        d',
        record_event EventType.claim_issued (Payload.issued claim.id claim.txt_record_name) now d'
            (record log { next_id = suc log.next_id }),
      )

  -- `reissue_claim` after the revocation.
  unfoldable pub renew : Text → Time → Domain × Log → Result (Domain × Log)
  renew cname_target now s = do
    (d₁, log₁) ← reset_checks now check_types s
    (d₂, log₂) ←
        if reset_on_reissue d₁.status
        then transition_status DomainStatus.pending_dns (some Reason.claim_reissued) now d₁ log₁
        else ok (d₁, log₁)
    ok (issue_claim cname_target now d₂ log₂)

  -- `reissue_claim`, on the row that `get_domain` found.
  unfoldable pub reissue_claim : Text → Time → Domain → Log → Result (Domain × Log)
  unfolding renew
  reissue_claim cname_target now d log =
      renew cname_target now (revoke_live_claim (codes "reissued") now d log)

abbrev pub tombstone_retention : Time
tombstone_retention = days 90

-- `delete_domain`, on the row that `get_domain` found.
abbrev pub marked_deleted : Time → Domain → Domain
marked_deleted now d = record d {
  status = DomainStatus.deleting;
  deleted_at = some now;
  purge_after = some (now + tombstone_retention);
}

unfoldable pub tombstone : Time → Domain → Log → Domain × Log
tombstone now d log =
    let (d', log') = revoke_live_claim (codes "deleted") now (marked_deleted now d) log in
    if is_deleted d then (d, log) else (
      d',
      record_event EventType.domain_deleted (Payload.deleted d.hostname (now + tombstone_retention))
          now d' log',
    )
