-- ===== src/Tenants/ApplicationLaws.antt =====
-- Laws of `delete_application` of app/services/applications.py.
use custom_domain.Common.{
  ℕ, ◌+◌, ◌==◌, ◌⊎◌, ◌≡◌, refl, inl, inr, Bool, true, false, not, ◌&&◌, ◌||◌, none, some, is_some,
  List, [], ◌∷◌, map, update, first, ltb, Text, text_eq, strip, Time, All, arith, Bool-cases,
}
use custom_domain.Errors.{ok, is_ok, is_ok_value}
use custom_domain.Model.{
  ApplicationStatus, Application, ApiCredential, serving_origin, active_origin, is_usable,
  VerifiedOrigin,
}
use custom_domain.Lifecycle.Claims.{tombstone_retention}
use custom_domain.Registry.{Store, live_domains}
use custom_domain.Registry.Sound.{IsRegistry}
use custom_domain.Tenants.Applications.{
  Tenancy, put_application, save_application, delete_each, revoke_at, retire, latest_purge,
  archived, delete_application,
}
use custom_domain.Tenants.DeletionLaws.{
  live_ids, live_ids-Among, delete_each-lem, no_live_domains, delete_each_total, live_ids-Present,
}

put_application-All :
    (P : Application → Type 0) (a : Application) (rows : List Application)
    → ((r : Application) → (r.id == a.id) ≡ false → P r)
    → P a
    → All P (put_application a rows)
put_application-All P a [] other p = tt
put_application-All P a (r ∷ rs) other p = elim (Bool-cases (r.id == a.id)) [
  | inl t ↦ rw t (p, put_application-All P a rs other p)
  | inr f ↦ rw f (other r f, put_application-All P a rs other p)
]

retired-none : (os : List VerifiedOrigin) → first (λ o. o.is_active) (map retire os) ≡ none
retired-none [] = refl
retired-none (o ∷ os) = retired-none os

-- What a deleted application's row shows.
abbrev pub Closed : Application → Type 0
Closed r =
    (r.status ≡ ApplicationStatus.suspended)
    × (is_some r.deleted_at ≡ true)
    × (serving_origin r ≡ none)

revoked_keys :
    (a : Application) (now at : Time) (cs : List ApiCredential)
    → All
        (λ c. (c.application_id == a.id) ≡ true → is_usable at c ≡ false)
        (update (λ c. c.application_id == a.id) (revoke_at now) cs)
unfolding is_usable
revoked_keys a now at [] = tt
revoked_keys a now at (c ∷ cs) = (λ own. ground arith, revoked_keys a now at cs)

module _ (id_hex : ℕ → Text) (confirm_slug : Text) (delete_domains : Bool) (now : Time)
    (a : Application) (tenancy : Tenancy) where
  -- The conditions on which a deletion goes ahead.
  abbrev pub confirmed : Bool
  confirmed =
      text_eq (strip confirm_slug) a.slug
      && (not (ltb 0 (live_domains (some a.id) tenancy.store.domains)) || delete_domains)

  archived-Closed : (purge_after : Time) → Closed (archived id_hex now purge_after a)
  unfolding archived serving_origin active_origin
  archived-Closed purge_after =
      (refl, refl, rw (serving_origin, active_origin, retired-none a.origins) refl)

  abbrev ids : List ℕ
  ids = live_ids a tenancy.store.domains

  -- What is left once the domains are deleted.
  abbrev left : Store → Tenancy
  left store = record {
    store =
        save_application
          (archived id_hex now (latest_purge a (now + tombstone_retention) store.domains) a) store;
    credentials = update (λ c. c.application_id == a.id) (revoke_at now) tenancy.credentials;
  }

  pub delete_application-confirmed :
      confirmed ≡ true
      → (store : Store) × (delete_each a ids now tenancy.store ≡ ok store)
        × (delete_application id_hex confirm_slug delete_domains now a tenancy
            ≡ ok (live_domains (some a.id) tenancy.store.domains, left store))
  unfolding delete_application
  delete_application-confirmed go =
      let (store, done) =
        is_ok_value (delete_each a ids now tenancy.store)
          (delete_each_total a ids now tenancy.store (live_ids-Present a tenancy.store.domains)) in
      let typed : text_eq (strip confirm_slug) a.slug ≡ true = ground (arith, go) in
      let allowed : (ltb 0 (live_domains (some a.id) tenancy.store.domains) && not delete_domains)
          ≡ false =
        ground (arith, go) in
      (store, done, rw (typed, allowed, done) refl)

  pub delete_application-unconfirmed :
      confirmed ≡ false
      → is_ok (delete_application id_hex confirm_slug delete_domains now a tenancy) ≡ false
  unfolding delete_application
  delete_application-unconfirmed stop = elim (Bool-cases (text_eq (strip confirm_slug) a.slug)) [
    | inr f ↦ rw f refl
    | inl t ↦
        let refused : (ltb 0 (live_domains (some a.id) tenancy.store.domains) && not delete_domains)
            ≡ true =
          ground (arith, stop) in
        rw (t, refused) refl
  ]

  -- On a sound database, a deletion of an application goes ahead exactly when the slug was repeated and either the application
  -- has no live domain or their deletion was asked for; otherwise it raises. When it goes ahead it returns the number of live
  -- domains, the database is sound, the application has no live domain, no key of it is usable at any instant, and its row is
  -- suspended and deleted and has no serving origin.
  pub delete_application_lem :
      IsRegistry tenancy.store
      → ((confirmed ≡ false)
          × (is_ok (delete_application id_hex confirm_slug delete_domains now a tenancy) ≡ false))
        ⊎ ((confirmed ≡ true)
            × ((out : Tenancy) × (delete_application id_hex confirm_slug delete_domains now a
                    tenancy
                  ≡ ok (live_domains (some a.id) tenancy.store.domains, out))
                × IsRegistry out.store
                × (live_domains (some a.id) out.store.domains ≡ 0)
                × ((at : Time)
                    → All
                        (λ c. (c.application_id == a.id) ≡ true → is_usable at c ≡ false)
                        out.credentials)
                × All (λ r. (r.id == a.id) ≡ true → Closed r) out.store.applications))
  unfolding archived
  delete_application_lem r = elim (Bool-cases confirmed) [
    | inr stop ↦ inl (stop, delete_application-unconfirmed stop)
    | inl go ↦
        let (store, done, e) = delete_application-confirmed go in
        let (sound, none_live) =
          delete_each-lem a ids now tenancy.store store done r
            (live_ids-Among a tenancy.store.domains) in
        let purge_after = latest_purge a (now + tombstone_retention) store.domains in
        inr (
          go,
          (
            left store,
            e,
            record {
              distinct = sound.distinct;
              handed_out = sound.handed_out;
              sound = sound.sound;
            },
            no_live_domains a store.domains none_live,
            (λ at. revoked_keys a now at tenancy.credentials),
            put_application-All (λ q. (q.id == a.id) ≡ true → Closed q)
                (archived id_hex now purge_after a) store.applications
                (λ q n y. absurd (archived_other q n y)) (λ y. archived-Closed purge_after),
          ),
        )
  ]
    where
      archived_other : (q : Application) → (q.id == a.id) ≡ false → (q.id == a.id) ≡ true → ⊥
      archived_other q n y = ground arith
