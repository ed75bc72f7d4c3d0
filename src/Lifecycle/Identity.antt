-- ===== src/Lifecycle/Identity.antt =====
-- What a row keeps through its life: its identity, and its deletion.
use custom_domain.Common.{ℕ, ◌≡◌, inl, inr, true, false, Option, arith, subst, Text, Time}
use custom_domain.Errors.{ok}
use custom_domain.Model.{
  DomainStatus, CheckType, CheckStatus, Reason, Details, Application, OwnershipClaim, Domain, Log,
  is_deleted,
}
use custom_domain.Lifecycle.Status.{
  is_serveable, transition_status, record_check, put_check, with_check, observed_check,
}
use custom_domain.Lifecycle.Claims.{mark_claim_verified, with_claim}
use custom_domain.Lifecycle.Sound.{
  IsSound, SameIdentity, SameIdentity-refl, SameIdentity-trans, moved-SameIdentity,
}
use custom_domain.Lifecycle.Preserve.{transition_status_ok, demote_ok}
use custom_domain.Lifecycle.Ownership.{mark_claim_verified_ok, tombstone-SameIdentity}
use custom_domain.Lifecycle.Reissued.{reissue_claim_lem}
use custom_domain.Lifecycle.Steps.{
  Step, transition, observe, verify, reissue, delete, Reach, here, next, Step-IsSound,
}

transition_status-SameIdentity :
    (status : DomainStatus) (reason : Option Reason) (now : Time) (d : Domain) (log : Log)
    {out : Domain × Log}
    → transition_status status reason now d log ≡ ok out
    → SameIdentity d out.0
transition_status-SameIdentity status reason now d log h =
    rw ((transition_status_ok status reason now d log h).0) (moved-SameIdentity d status d.checks)

pub record_check-SameIdentity :
    (t : CheckType) (status : CheckStatus) (error_code : Option Text) (details : Option Details)
    (at : Time) (next : Option Time) (d : Domain) (log : Log) {out : Domain × Log}
    → record_check t status error_code details at next d log ≡ ok out
    → SameIdentity d out.0
unfolding record_check
record_check-SameIdentity t status e details at next_at d log h =
    let c = observed_check t status e details at next_at in
    elim (demote_ok t status at (with_check c d) _ h) [
      | inl (moved, live) ↦
          rw moved (moved-SameIdentity d DomainStatus.attention_required (put_check c d.checks))
      | inr (same, kept) ↦ rw same (moved-SameIdentity d d.status (put_check c d.checks))
    ]

with_claim-SameIdentity : (c : OwnershipClaim) (d : Domain) → SameIdentity d (with_claim c d)
unfolding is_deleted
with_claim-SameIdentity c d = ground arith

pub mark_claim_verified-SameIdentity :
    (method : Text) (now : Time) (d : Domain) (log : Log) {out : Domain × Log}
    → mark_claim_verified method now d log ≡ ok out
    → SameIdentity d out.0
mark_claim_verified-SameIdentity method now d log h =
    let (claim, found, live, same) = mark_claim_verified_ok now d log method h in
    rw same (with_claim-SameIdentity _ d)

module _ (token_urlsafe : ℕ → ℕ → Text) where
  pub Step-SameIdentity : {d e : Domain} → Step token_urlsafe d e → IsSound d → SameIdentity d e
  Step-SameIdentity {d} (transition status reason now log out h) s =
      transition_status-SameIdentity status reason now d log h
  Step-SameIdentity {d} (observe t status e details at next_at log out p h) s =
      record_check-SameIdentity t status e details at next_at d log h
  Step-SameIdentity {d} (verify method now log out h) s =
      mark_claim_verified-SameIdentity method now d log h
  Step-SameIdentity {d} (reissue cname_target now log out live h) s =
      let (out', done, _, _, same, _) =
        reissue_claim_lem token_urlsafe cname_target now d log s live in
      let e : out' ≡ out = cc in subst (λ (o : Domain × Log). SameIdentity d o.0) e same
  Step-SameIdentity {d} (delete now log) s = tombstone-SameIdentity now d log

  -- No operation changes the identifier, the application, the hostname or the reference of a row,
  -- and a deleted row stays deleted.
  pub Reach-SameIdentity :
      {d e : Domain} → Reach token_urlsafe d e → IsSound d → IsSound e × SameIdentity d e
  Reach-SameIdentity {d} here s = (s, SameIdentity-refl d)
  Reach-SameIdentity (next r st) s =
      let (sound, same) = Reach-SameIdentity r s in
      (Step-IsSound token_urlsafe st sound, SameIdentity-trans same (Step-SameIdentity st sound))

  -- A deleted sound row stays deleted, and is not serveable, after any sequence of operations.
  pub deleted_never_serveable :
      (a : Option Application) (d e : Domain)
      → IsSound d
      → is_deleted d ≡ true
      → Reach token_urlsafe d e
      → (is_deleted e ≡ true) × (is_serveable a e ≡ false)
  unfolding is_serveable
  deleted_never_serveable a d e s gone r =
      let (sound, same) = Reach-SameIdentity r s in
      let still : is_deleted e ≡ true = ground (arith, same.stays_deleted) in (still, ground arith)
