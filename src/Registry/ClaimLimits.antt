-- ===== src/Registry/ClaimLimits.antt =====
-- A successful claim stays within the limits, and what it returns.
use custom_domain.Common.{
  ℕ, suc, ◌+◌, ◌<◌, ◌≤◌, ◌≡◌, refl, sym, subst, true, false, Option, none, some, List, [], ◌∷◌,
  ◌++◌, arith, Text, Time, le_trans, count-append,
}
use custom_domain.Errors.{ok, >>=-ok, LimitScope}
use custom_domain.Model.{
  DomainStatus, ClaimStatus, Application, OwnershipClaim, Domain, EventType, Payload, active_claim,
  is_active_status,
}
use custom_domain.Hostname.{Libraries, Canonical, canonicalize}
use custom_domain.Hostname.Laws.{IsCustomerName, canonicalize-IsCustomerName}
use custom_domain.Lifecycle.Events.{record_event-next_id}
use custom_domain.Lifecycle.Sound.{IsSound}
use custom_domain.Lifecycle.Reissued.{issue_claim-live, issue_claim-keeps, issue_claim-SameIdentity}
use custom_domain.Registry.Tables.{Store}
use custom_domain.Registry.Limits.{live_domains, enforce, enforce_one}
use custom_domain.Registry.Claim.{new_domain, register, claim_domain}
use custom_domain.Registry.Claimed.{claim_domain_ok}
use custom_domain.Registry.ClaimLaws.{claimed, row, created_log, row_dead, claimed-IsSound}

-- The number of live rows is within a limit, if there is one.
abbrev pub Within : Option ℕ → ℕ → Type 0
Within none live = Unit
Within (some limit) live = live ≤ limit

enforce_one-Within :
    (scope : LimitScope) (limit : Option ℕ) (live : ℕ)
    → enforce_one scope limit live ≡ ok tt
    → Within limit (live + 1)
enforce_one-Within scope none live h = tt
enforce_one-Within scope (some m) live h = ground arith

enforce_ok :
    (limit : Option ℕ) (a : Application) (rows : List Domain)
    → enforce limit a rows ≡ ok tt
    → Within a.max_domains (live_domains (some a.id) rows + 1)
      × Within limit (live_domains none rows + 1)
unfolding enforce
enforce_ok limit a rows h =
    let (_, own, rest) =
      >>=-ok (enforce_one LimitScope.application a.max_domains (live_domains (some a.id) rows)) _
        h in
    (
      enforce_one-Within LimitScope.application a.max_domains (live_domains (some a.id) rows) own,
      enforce_one-Within LimitScope.deployment limit (live_domains none rows) rest,
    )

live_domains-snoc :
    (scope : Option ℕ) (rows : List Domain) (d : Domain)
    → live_domains scope (rows ++ d ∷ []) ≤ live_domains scope rows + 1
unfolding live_domains
live_domains-snoc none rows d = rw count-append (ground arith)
live_domains-snoc (some app) rows d = rw count-append (ground arith)

Within-le : (limit : Option ℕ) (n m : ℕ) → n ≤ m → Within limit m → Within limit n
Within-le none n m h w = tt
Within-le (some l) n m h w = le_trans h w

module _ (libs : Libraries) (token_urlsafe : ℕ → ℕ → Text) where
  -- After a claim that succeeds neither the application nor the deployment has more live domains than
  -- its limit, where it has one.
  pub claim_domain-Within :
      (limit : Option ℕ) (a : Application) (hostname reference : Text) (metadata : Option Text)
      (now : Time) (store : Store) {out : Domain × Store}
      → claim_domain libs token_urlsafe limit a hostname reference metadata now store ≡ ok out
      → Within a.max_domains (live_domains (some a.id) out.1.domains)
        × Within limit (live_domains none out.1.domains)
  unfolding register
  claim_domain-Within limit a hostname reference metadata now store {out} h =
      let c = claim_domain_ok libs token_urlsafe limit a hostname reference metadata now store h in
      let (own, all) = enforce_ok limit a store.domains c.in_limits in
      let d = (claimed libs token_urlsafe a c.name reference metadata now store).0 in
      subst
        (λ (o : Domain × Store).
          Within a.max_domains (live_domains (some a.id) o.1.domains)
          × Within limit (live_domains none o.1.domains))
        c.registered
        (
          Within-le a.max_domains _ _ (live_domains-snoc (some a.id) store.domains d) own,
          Within-le limit _ _ (live_domains-snoc none store.domains d) all,
        )

  -- The row that a claim returns: it belongs to the application, its name is the canonical customer
  -- name of the hostname, it waits for DNS, and its one live claim is unverified and names the
  -- application's target and a token drawn for it.
  pub record IsFresh (a : Application) (hostname : Text) (store : Store) (d : Domain) : Type 0 where
    pub owner : d.application_id ≡ a.id
    pub canonical : canonicalize libs (some hostname) false ≡ Canonical.ok d.hostname
    pub customer : IsCustomerName libs d.hostname
    pub waiting : d.status ≡ DomainStatus.pending_dns
    pub sound : IsSound d
    pub claim : OwnershipClaim
    pub live : active_claim d ≡ some claim
    pub unverified : claim.status ≡ ClaimStatus.pending
    pub target : claim.cname_target ≡ a.cname_target
    pub draw : ℕ
    pub fresh : store.log.next_id < draw
    pub token : claim.token ≡ token_urlsafe 32 draw

  -- A claim that succeeds is by an active application, and returns a sound row of that
  -- application under a canonical customer hostname, with status `pending_dns` and a pending
  -- live claim that names the target of the application and holds a token drawn after all that
  -- the log had handed out. The database holds it after all the rows that were there.
  pub claim_domain-IsFresh :
      (limit : Option ℕ) (a : Application) (hostname reference : Text) (metadata : Option Text)
      (now : Time) (store : Store) {out : Domain × Store}
      → claim_domain libs token_urlsafe limit a hostname reference metadata now store ≡ ok out
      → (is_active_status a.status ≡ true)
        × IsFresh a hostname store out.0
        × (out.1.domains ≡ store.domains ++ out.0 ∷ [])
  unfolding register new_domain
  claim_domain-IsFresh limit a hostname reference metadata now store {out} h =
      let c = claim_domain_ok libs token_urlsafe limit a hostname reference metadata now store h in
      let s = claimed libs token_urlsafe a c.name reference metadata now store in
      let r = row libs token_urlsafe a c.name reference metadata now store in
      let log = created_log libs token_urlsafe a c.name reference metadata now store in
      let same = issue_claim-SameIdentity token_urlsafe a.cname_target now r log in
      let (status, _, _) = issue_claim-keeps token_urlsafe a.cname_target now r log in
      let (claim, live, pending, target, token, _) =
        issue_claim-live token_urlsafe a.cname_target now r log
          (row_dead libs token_urlsafe a c.name reference metadata now store) in
      let name =
        subst (λ (n : Text). canonicalize libs (some hostname) false ≡ Canonical.ok n)
          (sym same.hostname) c.canonical in
      (
        c.active,
        subst (λ (o : Domain × Store). IsFresh a hostname store o.0) c.registered
            (record {
              owner = same.application_id;
              canonical = name;
              customer = canonicalize-IsCustomerName libs (some hostname) name;
              waiting = status;
              sound = claimed-IsSound libs token_urlsafe a c.name reference metadata now store;
              claim = claim;
              live = live;
              unverified = pending;
              target = target;
              draw = log.next_id;
              fresh = omega (
                arith,
                record_event-next_id EventType.domain_created (Payload.created c.name r.reference)
                    now r (record store.log { next_id = suc store.log.next_id }),
              );
              token = token;
            }),
        subst (λ (o : Domain × Store). o.1.domains ≡ store.domains ++ o.0 ∷ []) c.registered refl,
      )
