-- ===== src/Lifecycle/Steps.antt =====
-- A domain row through its life, as a relation: each step is an operation of app/services/domains.py
-- that succeeded. Every row that is reached is sound, so `ready` alone decides who is served.
use custom_domain.Common.{ℕ, ◌≡◌, ◌≢◌, ◌↔◌, true, false, Option, arith, Text, Time}
use custom_domain.Errors.{ok}
use custom_domain.Model.{
  DomainStatus, CheckType, CheckStatus, Reason, Details, Application, Domain, Log, is_deleted,
  status_eq_iff,
}
use custom_domain.Lifecycle.Status.{
  application_active, is_serveable, transition_status, record_check,
}
use custom_domain.Lifecycle.Claims.{mark_claim_verified, reissue_claim, tombstone}
use custom_domain.Lifecycle.Sound.{IsSound}
use custom_domain.Lifecycle.Preserve.{transition_status-IsSound, record_check-IsSound}
use custom_domain.Lifecycle.Ownership.{mark_claim_verified-IsSound, tombstone-IsSound}
use custom_domain.Lifecycle.Reissued.{reissue_claim_lem}

module _ (token_urlsafe : ℕ → ℕ → Text) where
  -- An observation is `passing` or `failing`; only `reissue_claim` sets a check back to `pending`,
  -- and it is called on rows that are not deleted.
  pub data Step (d : Domain) : Domain → Type 0 where
    transition :
        (status : DomainStatus) (reason : Option Reason) (now : Time) (log : Log)
        (out : Domain × Log)
        → transition_status status reason now d log ≡ ok out
        → Step d out.0
    observe :
        (t : CheckType) (status : CheckStatus) (error_code : Option Text) (details : Option Details)
        (at : Time) (next : Option Time) (log : Log) (out : Domain × Log)
        → status ≢ CheckStatus.pending
        → record_check t status error_code details at next d log ≡ ok out
        → Step d out.0
    verify :
        (method : Text) (now : Time) (log : Log) (out : Domain × Log)
        → mark_claim_verified method now d log ≡ ok out
        → Step d out.0
    reissue :
        (cname_target : Text) (now : Time) (log : Log) (out : Domain × Log)
        → is_deleted d ≡ false
        → reissue_claim token_urlsafe cname_target now d log ≡ ok out
        → Step d out.0
    delete : (now : Time) (log : Log) → Step d (tombstone now d log).0

  pub data Reach (d : Domain) : Domain → Type 0 where
    here : Reach d d
    next : {e f : Domain} → Reach d e → Step e f → Reach d f

  pub Reach-trans : {d e f : Domain} → Reach d e → Reach e f → Reach d f
  Reach-trans r here = r
  Reach-trans r (next s st) = next (Reach-trans r s) st

  reissue-IsSound :
      (cname_target : Text) (now : Time) (d : Domain) (log : Log) (out : Domain × Log)
      → IsSound d
      → is_deleted d ≡ false
      → reissue_claim token_urlsafe cname_target now d log ≡ ok out
      → IsSound out.0
  reissue-IsSound cname_target now d log out s live h =
      let (out', done, sound, _, _, _) =
        reissue_claim_lem token_urlsafe cname_target now d log s live in
      let same : out' ≡ out = cc in rw (← same) sound

  pub Step-IsSound : {d e : Domain} → Step d e → IsSound d → IsSound e
  Step-IsSound {d} (transition status reason now log out h) s =
      transition_status-IsSound status reason now d log s h
  Step-IsSound {d} (observe t status e details at next_at log out p h) s =
      record_check-IsSound t status e details at next_at d log s p h
  Step-IsSound {d} (verify method now log out h) s =
      mark_claim_verified-IsSound now d log method s h
  Step-IsSound {d} (reissue cname_target now log out live h) s =
      reissue-IsSound cname_target now d log out s live h
  Step-IsSound {d} (delete now log) s = tombstone-IsSound now d log s

  -- Whatever operations run on a sound row, in whatever order, it stays sound: `ready` rests on a
  -- verified live claim and four passing checks, a deleted row has no live claim, there is at most
  -- one live claim, and every check is there once.
  pub Reach-IsSound : {d e : Domain} → Reach d e → IsSound d → IsSound e
  Reach-IsSound here s = s
  Reach-IsSound (next r st) s = Step-IsSound st (Reach-IsSound r s)

serveable_iff_sound :
    (a : Option Application) (d : Domain)
    → IsSound d
    → (is_serveable a d ≡ true) ↔ ((application_active a ≡ true) × (d.status ≡ DomainStatus.ready))
unfolding is_serveable is_deleted
serveable_iff_sound a d s = (
  λ h. ground (arith, status_eq_iff d.status DomainStatus.ready),
  λ h. ground (arith, s.evidence, s.tombstone, status_eq_iff d.status DomainStatus.ready),
)

-- A row that is reached from a sound one is served exactly when its application is active and its
-- status is `ready`.
pub serveable_iff_ready :
    (token_urlsafe : ℕ → ℕ → Text) (a : Option Application) {d e : Domain}
    → IsSound d
    → Reach token_urlsafe d e
    → (is_serveable a e ≡ true) ↔ ((application_active a ≡ true) × (e.status ≡ DomainStatus.ready))
serveable_iff_ready token_urlsafe a {e} s r =
    serveable_iff_sound a e (Reach-IsSound token_urlsafe r s)
