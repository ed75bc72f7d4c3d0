-- ===== src/Registry/Refinement.antt =====
-- An abstract view of app/services/domains.py: a map from hostnames to owners, and its steps.
use custom_domain.Common.{
  ℕ, ◌≡◌, sym, ap, subst, ◌∙◌, inl, inr, Bool, true, false, Option, none, some, first, first-All,
  first_sound, map, Text, text_eq, Time, arith, Bool-cases, if◌then◌else◌,
}
use custom_domain.Errors.{ok, >>=-ok}
use custom_domain.Model.{Application, Domain, Log, is_deleted, EventType, Payload, DomainStatus}
use custom_domain.Hostname.{Libraries}
use custom_domain.Lifecycle.Sound.{IsSound, SameIdentity}
use custom_domain.Lifecycle.Claims.{tombstone}
use custom_domain.Lifecycle.Ownership.{tombstone-SameIdentity}
use custom_domain.Lifecycle.Identity.{Reach-SameIdentity}
use custom_domain.Registry.Tables.{Store, visible, get_domain, save}
use custom_domain.Registry.Claim.{is_claimed, claim_domain}
use custom_domain.Registry.Purge.{purge_tombstones}
use custom_domain.Registry.Requests.{delete_domain, request_recheck, reissue, make_due}
use custom_domain.Lifecycle.Events.{record_event}
use custom_domain.Lifecycle.Reissued.{reissue_claim_lem}
use custom_domain.Registry.Claimed.{claim_domain_ok}
use custom_domain.Registry.ClaimLimits.{claim_domain-IsFresh}
use custom_domain.Registry.Sound.{IsRegistry, get_domain_ok, visible_live}
use custom_domain.Registry.Steps.{StoreStep, claim, delete, recheck, renewal, work, purge}
use custom_domain.Registry.Owners.{
  live_owner, owner_in, unclaimed-owner, owner-append, owner-put_row_kept, owner-put_row_freed,
  owner-purged,
}

-- The abstract view: who owns a hostname.
abbrev pub Ownership : Type 0
Ownership = Text → Option ℕ

abbrev pub ownership : Store → Ownership
ownership store hostname = owner_in hostname store.domains

-- The steps that the abstract view allows to an application: it acquires a hostname that nobody owns, or releases one of its
-- own, or moves nothing.
pub data Moves (actor : Option ℕ) (m n : Ownership) : Type 0 where
  acquired :
      (hostname : Text)
      → m hostname ≡ none
      → ((k : Text) → n k ≡ (if text_eq hostname k then actor else m k))
      → Moves actor m n
  released :
      (hostname : Text)
      → m hostname ≡ actor
      → ((k : Text) → n k ≡ (if text_eq hostname k then none else m k))
      → Moves actor m n
  unmoved : ((k : Text) → n k ≡ m k) → Moves actor m n

-- The write of a row that a lookup found releases its hostname, if it deletes the row, and moves nothing else.
save-Moves :
    (p : Domain → Bool) (d : Domain) (s : Domain × Log) (store : Store)
    → IsRegistry store
    → first p store.domains ≡ some d
    → SameIdentity d s.0
    → Moves (some d.application_id) (ownership store) (ownership (save s store))
save-Moves p d s store r found same = elim (Bool-cases (is_deleted d)) [
  | inl gone ↦ unmoved (λ k.
      owner-put_row_kept p d s.0 same k store.domains (ground (arith, same.stays_deleted))
        r.distinct found)
  | inr live ↦ elim (Bool-cases (is_deleted s.0)) [
    | inl freed ↦
        released d.hostname (live_owner p d store.domains live r.distinct found)
          (λ k. owner-put_row_freed p d s.0 same k store.domains live freed r.distinct found)
    | inr kept ↦
        unmoved
          (λ k. owner-put_row_kept p d s.0 same k store.domains (kept ∙ sym live) r.distinct found)
  ]
]

visible-Moves :
    (a : Application) (id : ℕ) (deleted : Bool) (d : Domain) (s : Domain × Log) (store : Store)
    → IsRegistry store
    → first (visible a.id id deleted) store.domains ≡ some d
    → SameIdentity d s.0
    → Moves (some a.id) (ownership store) (ownership (save s store))
visible-Moves a id deleted d s store r found same =
    let v = first_sound (visible a.id id deleted) store.domains found in
    let own : d.application_id ≡ a.id = ground (arith, v) in
    subst (λ (i : ℕ). Moves (some i) (ownership store) (ownership (save s store))) own
      (save-Moves (visible a.id id deleted) d s store r found same)

unclaimed_live :
    (d : Domain) → IsSound d → d.status ≡ DomainStatus.pending_dns → is_deleted d ≡ false
unfolding is_deleted
unclaimed_live d s waiting = ground (arith, s.tombstone)

purged :
    (now : Time) (store : Store) (k : Text)
    → owner_in k (purge_tombstones now store).1.domains ≡ owner_in k store.domains
unfolding purge_tombstones
purged now store k = owner-purged k now store.domains

module _ (libs : Libraries) (token_urlsafe : ℕ → ℕ → Text) where
  claim_domain-Moves :
      (limit : Option ℕ) (a : Application) (hostname reference : Text) (metadata : Option Text)
      (now : Time) (store : Store) (out : Domain × Store)
      → claim_domain libs token_urlsafe limit a hostname reference metadata now store ≡ ok out
      → Moves (some a.id) (ownership store) (ownership out.1)
  claim_domain-Moves limit a hostname reference metadata now store out h =
      let c = claim_domain_ok libs token_urlsafe limit a hostname reference metadata now store h in
      let (_, fresh, rows) =
        claim_domain-IsFresh libs token_urlsafe limit a hostname reference metadata now store h in
      let named : c.name ≡ out.0.hostname =
        let e = sym c.canonical ∙ fresh.canonical in ground arith in
      let free : is_claimed out.0.hostname store.domains ≡ false =
        subst (λ (n : Text). is_claimed n store.domains ≡ false) named c.unclaimed in
      let live = unclaimed_live out.0 fresh.sound fresh.waiting in
      subst (λ (i : ℕ). Moves (some i) (ownership store) (ownership out.1)) fresh.owner
        (acquired out.0.hostname (unclaimed-owner out.0.hostname store.domains free)
          (λ k. ap (owner_in k) rows ∙ owner-append k store.domains out.0 live free))

  delete_domain-Moves :
      (a : Application) (id : ℕ) (now : Time) (store : Store) (out : Domain × Store)
      → IsRegistry store
      → delete_domain a id now store ≡ ok out
      → Moves (some a.id) (ownership store) (ownership out.1)
  unfolding delete_domain
  delete_domain-Moves a id now store out r h =
      let (d, got, rest) = >>=-ok (get_domain a id true store) _ h in
      let s = tombstone now d store.log in
      let e : save s store ≡ out.1 = ground arith in
      subst (λ (t : Store). Moves (some a.id) (ownership store) (ownership t)) e
        (visible-Moves a id true d s store r (get_domain_ok a id true store got)
          (tombstone-SameIdentity now d store.log))

  request_recheck-Moves :
      (a : Application) (id : ℕ) (by : Text) (now : Time) (store : Store) (out : Domain × Store)
      → IsRegistry store
      → request_recheck a id by now store ≡ ok out
      → Moves (some a.id) (ownership store) (ownership out.1)
  unfolding request_recheck is_deleted
  request_recheck-Moves a id by now store out r h =
      let (d, got, rest) = >>=-ok (get_domain a id true store) _ h in
      let d' = record d { checks = map (make_due now) d.checks } in
      let log = record_event EventType.recheck_requested (Payload.recheck by) now d' store.log in
      let e : save (d', log) store ≡ out.1 = ground arith in
      subst (λ (t : Store). Moves (some a.id) (ownership store) (ownership t)) e
        (visible-Moves a id true d (d', log) store r (get_domain_ok a id true store got)
          (ground arith))

  reissue-Moves :
      (a : Application) (id : ℕ) (now : Time) (store : Store) (out : Store)
      → IsRegistry store
      → reissue token_urlsafe a id now store ≡ ok out
      → Moves (some a.id) (ownership store) (ownership out)
  unfolding reissue
  reissue-Moves a id now store out r h =
      let (d, got, rest) = >>=-ok (get_domain a id false store) _ h in
      let found = get_domain_ok a id false store got in
      let sound = first-All IsSound (visible a.id id false) store.domains found r.sound in
      let (s, done, _, _, same, _) =
        reissue_claim_lem token_urlsafe a.cname_target now d store.log sound
          (visible_live a.id id d (first_sound (visible a.id id false) store.domains found)) in
      let e : save s store ≡ out = ground arith in
      subst (λ (t : Store). Moves (some a.id) (ownership store) (ownership t)) e
        (visible-Moves a id false d s store r found same)

  -- The application that a step acts for; a purge acts for none.
  abbrev pub actor : {t u : Store} → StoreStep libs token_urlsafe t u → Option ℕ
  actor (claim limit a hostname reference metadata now out h) = some a.id
  actor (delete a id now out h) = some a.id
  actor (recheck a id by now out h) = some a.id
  actor (renewal a id now out h) = some a.id
  actor (work p d s found run later) = some d.application_id
  actor (purge now) = none

  -- On a sound database every step implements one of the abstract map from hostnames to owners: the application that it acts for
  -- (the row's for a worker, none for a purge) acquires a hostname that nobody owns, or releases one of its own, or no
  -- hostname changes hands.
  pub step_refines :
      {t u : Store}
      → IsRegistry t
      → (step : StoreStep libs token_urlsafe t u) → Moves (actor step) (ownership t) (ownership u)
  step_refines {t} r (claim limit a hostname reference metadata now out h) =
      claim_domain-Moves limit a hostname reference metadata now t out h
  step_refines {t} r (delete a id now out h) = delete_domain-Moves a id now t out r h
  step_refines {t} r (recheck a id by now out h) = request_recheck-Moves a id by now t out r h
  step_refines {t} r (renewal a id now out h) = reissue-Moves a id now t out r h
  step_refines {t} r (work p d s found run later) =
      let (_, same) =
        Reach-SameIdentity token_urlsafe run (first-All IsSound p t.domains found r.sound) in
      save-Moves p d s t r found same
  step_refines {t} r (purge now) = unmoved (λ k. purged now t k)
