-- ===== src/Lifecycle/Reissued.antt =====
-- `reissue_claim`: what it leaves, and that it cannot fail on a live row.
use custom_domain.Common.{
  ℕ, ◌≤◌, ◌<◌, ◌≡◌, ◌≢◌, refl, sym, ◌∙◌, ap, true, false, none, some, List, [], ◌∷◌, ◌++◌, arith,
  count, first, subst, codes, le_trans, Text, Time, is_some,
}
use custom_domain.Errors.{ok}
use custom_domain.Model.{
  DomainStatus, ClaimStatus, CheckType, OwnershipClaim, Domain, Log, is_live_claim, is_deleted,
  active_claim, status_eq,
}
use custom_domain.Lifecycle.Status.{by_type}
use custom_domain.Lifecycle.Claims.{
  revoke_live_claim, renew, reissue_claim, issue_claim, challenge_label,
}
use custom_domain.Lifecycle.Events.{record_event-next_id}
use custom_domain.Lifecycle.Sound.{
  IsSound, has_type, live_untombstoned, not_ready-Evidence, SameIdentity, moved-SameIdentity,
  SameIdentity-trans,
}
use custom_domain.Lifecycle.Ownership.{
  revoke_live_claim-none, revoke_live_claim_keeps, revoke_live_claim-SameIdentity,
  revoke_live_claim-next_id,
}
use custom_domain.Lifecycle.Reissue.{
  IsPending, reset_row, reset_row-IsPending, reset_row_once, reset_checks_ok, after_reissue,
  after_reissue-ne-ready, after_reissue_not_ready, move_back_ok,
}

-- What a row looks like after new material was issued for it.
pub record IsReissued (token_urlsafe : ℕ → ℕ → Text) (cname_target : Text) (d : Domain) (log : Log)
    (d' : Domain) : Type 0 where
  pub not_ready : d'.status ≢ DomainStatus.ready
  pub claim : OwnershipClaim
  pub live : active_claim d' ≡ some claim
  pub unverified : claim.status ≡ ClaimStatus.pending
  pub target : claim.cname_target ≡ cname_target
  pub draw : ℕ
  pub fresh : log.next_id ≤ draw
  pub token : claim.token ≡ token_urlsafe 32 draw
  pub one_live : count is_live_claim d'.claims ≡ 1
  pub checks_pending : (u : CheckType) → IsPending (by_type u d'.checks)

module _ (token_urlsafe : ℕ → ℕ → Text) (cname_target : Text) (now : Time) where
  first-append_none :
      (cs : List OwnershipClaim) (c : OwnershipClaim)
      → first is_live_claim cs ≡ none
      → is_live_claim c ≡ true
      → (first is_live_claim (cs ++ c ∷ []) ≡ some c) × (count is_live_claim (cs ++ c ∷ []) ≡ 1)
  first-append_none [] c h l = ground arith
  first-append_none (b ∷ cs) c h l = ground (arith, first-append_none cs c)

  -- New material is the one live claim of the row that it is issued for.
  pub issue_claim-live :
      (d : Domain) (log : Log)
      → active_claim d ≡ none
      → let d' = (issue_claim token_urlsafe cname_target now d log).0 in
        (claim : OwnershipClaim) × (active_claim d' ≡ some claim)
        × (claim.status ≡ ClaimStatus.pending)
        × (claim.cname_target ≡ cname_target)
        × (claim.token ≡ token_urlsafe 32 log.next_id)
        × (count is_live_claim d'.claims ≡ 1)
  unfolding issue_claim active_claim
  issue_claim-live d log h =
      let c : OwnershipClaim = record {
        id = log.next_id;
        txt_record_name = challenge_label ++ d.hostname;
        token = token_urlsafe 32 log.next_id;
        cname_target = cname_target;
        status = ClaimStatus.pending;
        verification_method = none;
        verified_at = none;
        revoked_at = none;
        created_at = now;
      } in
      let (live, one) = first-append_none d.claims c h refl in (c, live, refl, refl, refl, one)

  pub issue_claim-keeps :
      (d : Domain) (log : Log)
      → let d' = (issue_claim token_urlsafe cname_target now d log).0 in
        (d'.status ≡ d.status) × (d'.checks ≡ d.checks) × (d'.deleted_at ≡ d.deleted_at)
  unfolding issue_claim
  issue_claim-keeps d log = (refl, refl, refl)

  pub issue_claim-next_id :
      (d : Domain) (log : Log)
      → log.next_id < (issue_claim token_urlsafe cname_target now d log).1.next_id
  unfolding issue_claim
  issue_claim-next_id d log = omega (arith, record_event-next_id)

  pub issue_claim-SameIdentity :
      (d : Domain) (log : Log) → SameIdentity d (issue_claim token_urlsafe cname_target now d log).0
  unfolding issue_claim is_deleted
  issue_claim-SameIdentity d log = ground arith

  renew_lem :
      (d : Domain) (log : Log)
      → active_claim d ≡ none
      → ((t : CheckType) → count (has_type t) d.checks ≡ 1)
      → is_deleted d ≡ false
      → (out : Domain × Log) × (renew token_urlsafe cname_target now (d, log) ≡ ok out)
        × IsSound out.0
        × IsReissued token_urlsafe cname_target d log out.0
        × SameIdentity d out.0
        × (log.next_id ≤ out.1.next_id)
  unfolding renew active_claim is_deleted
  renew_lem d log dead once live =
      let d₁ = reset_row now d in
      let (log₁, e₁, n₁) = reset_checks_ok now d log in
      let (log₂, e₂, n₂) = move_back_ok now d₁ log₁ live in
      let d₂ = record d₁ { status = after_reissue now d.status } in
      let (claim, found, pending, target, token, one) = issue_claim-live d₂ log₂ dead in
      let (status, checks, deleted) = issue_claim-keeps d₂ log₂ in
      let out = issue_claim token_urlsafe cname_target now d₂ log₂ in
      (
        out,
        rw (e₁, e₂) refl,
        record {
          evidence = not_ready-Evidence _ _ (
              ap (λ t. status_eq t DomainStatus.ready) status
              ∙ after_reissue_not_ready now d.status);
          tombstone = live_untombstoned _ _ (ap is_some deleted ∙ live);
          one_live = omega arith;
          each_check_once =
              subst (λ cs. (t : CheckType) → count (has_type t) cs ≡ 1) (sym checks)
                (reset_row_once now d once);
        },
        record {
          not_ready = λ e. after_reissue-ne-ready now d.status (sym status ∙ e);
          claim = claim;
          live = found;
          unverified = pending;
          target = target;
          draw = log₂.next_id;
          fresh = omega arith;
          token = token;
          one_live = one;
          checks_pending =
              subst (λ cs. (t : CheckType) → IsPending (by_type t cs)) (sym checks)
                (reset_row-IsPending now d once);
        },
        SameIdentity-trans
            (moved-SameIdentity d (after_reissue now d.status) (reset_row now d).checks)
            (issue_claim-SameIdentity d₂ log₂),
        omega (arith, issue_claim-next_id d₂ log₂),
      )

  -- Re-issuing the material of a sound live row succeeds; the row is sound, out of `ready`, with all
  -- four checks pending and one live claim, which is unverified, names the target, and holds a token
  -- drawn after all that the log had handed out.
  pub reissue_claim_lem :
      (d : Domain) (log : Log)
      → IsSound d
      → is_deleted d ≡ false
      → (out : Domain × Log) × (reissue_claim token_urlsafe cname_target now d log ≡ ok out)
        × IsSound out.0
        × IsReissued token_urlsafe cname_target d log out.0
        × SameIdentity d out.0
        × (log.next_id ≤ out.1.next_id)
  unfolding reissue_claim is_deleted
  reissue_claim_lem d log s live =
      let (d₀, log₀) = revoke_live_claim (codes "reissued") now d log in
      let (status₀, checks₀, deleted₀, fewer₀) =
        revoke_live_claim_keeps now d log (codes "reissued") in
      let dead = revoke_live_claim-none now d log (codes "reissued") s.one_live in
      let once =
        subst (λ cs. (t : CheckType) → count (has_type t) cs ≡ 1) (sym checks₀) s.each_check_once in
      let (out, done, sound, issued, same, later) =
        renew_lem d₀ log₀ dead once (ap is_some deleted₀ ∙ live) in
      (
        out,
        done,
        sound,
        record {
          not_ready = issued.not_ready;
          claim = issued.claim;
          live = issued.live;
          unverified = issued.unverified;
          target = issued.target;
          draw = issued.draw;
          fresh = le_trans (revoke_live_claim-next_id now d log (codes "reissued")) issued.fresh;
          token = issued.token;
          one_live = issued.one_live;
          checks_pending = issued.checks_pending;
        },
        SameIdentity-trans (revoke_live_claim-SameIdentity now d log (codes "reissued")) same,
        le_trans (revoke_live_claim-next_id now d log (codes "reissued")) later,
      )
