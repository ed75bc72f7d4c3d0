-- ===== src/Registry/ClaimLaws.antt =====
-- What a successful claim leaves: a sound row, the limits kept, and the database's invariant.
use custom_domain.Common.{
  ℕ, suc, ◌<◌, ◌≡◌, refl, sym, subst, false, Option, none, [], ◌∷◌, ◌++◌, arith, Text, Time, All,
  All-append, count,
}
use custom_domain.Errors.{ok}
use custom_domain.Model.{CheckType, Application, Domain, Log, EventType, Payload, active_claim}
use custom_domain.Hostname.{Libraries}
use custom_domain.Lifecycle.Events.{record_event, record_event-next_id}
use custom_domain.Lifecycle.Claims.{issue_claim}
use custom_domain.Lifecycle.Sound.{IsSound, Evidence, Tombstoned, has_type}
use custom_domain.Lifecycle.Reissued.{
  issue_claim-live, issue_claim-keeps, issue_claim-SameIdentity, issue_claim-next_id,
}
use custom_domain.Registry.Tables.{Store}
use custom_domain.Registry.Claim.{is_claimed, new_domain, register, claim_domain}
use custom_domain.Registry.Distinct.{insert-Distinct}
use custom_domain.Registry.Sound.{IsRegistry, All-later}
use custom_domain.Registry.Claimed.{claim_domain_ok}

module _ (libs : Libraries) (token_urlsafe : ℕ → ℕ → Text) where
  new_domain_once :
      (id app : ℕ) (host reference : Text) (metadata : Option Text) (now : Time) (t : CheckType)
      → count (has_type t) (new_domain libs token_urlsafe id app host reference metadata now).checks
        ≡ 1
  unfolding new_domain
  new_domain_once id app host reference metadata now CheckType.ownership = refl
  new_domain_once id app host reference metadata now CheckType.routing = refl
  new_domain_once id app host reference metadata now CheckType.certificate = refl
  new_domain_once id app host reference metadata now CheckType.origin = refl

  module _ (a : Application) (name reference : Text) (metadata : Option Text) (now : Time)
      (store : Store) where
    abbrev pub id : ℕ
    id = store.log.next_id

    abbrev pub row : Domain
    row = new_domain libs token_urlsafe id a.id name reference metadata now

    abbrev pub created_log : Log
    created_log =
        record_event EventType.domain_created (Payload.created name row.reference) now row
          (record store.log { next_id = suc id })

    abbrev pub claimed : Domain × Log
    claimed = issue_claim token_urlsafe a.cname_target now row created_log

    pub register_row :
        register libs token_urlsafe a name reference metadata now store
        ≡ (claimed.0, record store { domains = store.domains ++ claimed.0 ∷ []; log = claimed.1 })
    unfolding register
    register_row = refl

    pub row_dead : active_claim row ≡ none
    unfolding active_claim new_domain
    row_dead = refl

    pub claimed_id : claimed.0.id ≡ id
    unfolding new_domain
    claimed_id = (issue_claim-SameIdentity token_urlsafe a.cname_target now row created_log).id

    pub claimed_name : claimed.0.hostname ≡ name
    unfolding new_domain
    claimed_name =
        (issue_claim-SameIdentity token_urlsafe a.cname_target now row created_log).hostname

    claimed_next_id : id < claimed.1.next_id
    claimed_next_id = omega (
      arith,
      issue_claim-next_id token_urlsafe a.cname_target now row created_log,
      record_event-next_id EventType.domain_created (Payload.created name row.reference) now row
          (record store.log { next_id = suc id }),
    )

    -- A new row is sound.
    pub claimed-IsSound : IsSound claimed.0
    unfolding new_domain
    claimed-IsSound =
        let (status, checks, deleted) =
          issue_claim-keeps token_urlsafe a.cname_target now row created_log in
        let (_, _, _, _, _, one) =
          issue_claim-live token_urlsafe a.cname_target now row created_log row_dead in
        record {
          evidence = subst (λ t. Evidence t claimed.0) (sym status) tt;
          tombstone = subst (λ o. Tombstoned o claimed.0) (sym deleted) tt;
          one_live = omega arith;
          each_check_once =
              subst (λ cs. (t : CheckType) → count (has_type t) cs ≡ 1) (sym checks)
                (new_domain_once id a.id name reference metadata now);
        }

    register-IsRegistry :
        IsRegistry store
        → is_claimed name store.domains ≡ false
        → IsRegistry (register libs token_urlsafe a name reference metadata now store).1
    register-IsRegistry r free = rw register_row (record {
      distinct =
          insert-Distinct store.domains claimed.0 r.distinct
            (subst (λ (i : ℕ). All (λ d. d.id < i) store.domains) (sym claimed_id) r.handed_out)
            (subst (λ (n : Text). is_claimed n store.domains ≡ false) (sym claimed_name) free);
      handed_out =
          All-append (λ d. d.id < claimed.1.next_id) store.domains (claimed.0 ∷ [])
            (All-later id claimed.1.next_id store.domains (omega (arith, claimed_next_id))
              r.handed_out)
            (subst (λ (i : ℕ). i < claimed.1.next_id) (sym claimed_id) claimed_next_id, tt);
      sound = All-append IsSound store.domains (claimed.0 ∷ []) r.sound (claimed-IsSound, tt);
    })

  -- A claim that succeeds keeps the database's invariant, hostname by hostname: no other live row of
  -- any application has the name.
  pub claim_domain-IsRegistry :
      (limit : Option ℕ) (a : Application) (hostname reference : Text) (metadata : Option Text)
      (now : Time) (store : Store) {out : Domain × Store}
      → IsRegistry store
      → claim_domain libs token_urlsafe limit a hostname reference metadata now store ≡ ok out
      → IsRegistry out.1
  claim_domain-IsRegistry limit a hostname reference metadata now store r h =
      let c = claim_domain_ok libs token_urlsafe limit a hostname reference metadata now store h in
      subst (λ (o : Domain × Store). IsRegistry o.1) c.registered
        (register-IsRegistry a c.name reference metadata now store r c.unclaimed)
