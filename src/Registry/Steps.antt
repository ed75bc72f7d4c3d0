-- ===== src/Registry/Steps.antt =====
-- The database through its life: the operations of app/services/domains.py as steps, in any order.
use custom_domain.Common.{
  ℕ, ◌<◌, ◌≤◌, ◌≡◌, refl, subst, Bool, true, false, not, ◌&&◌, Option, some, List, [], ◌∷◌, arith,
  Text, Time, All, All-select, first, first-All, first_sound, text_eq, text_eq_iff, count,
}
use custom_domain.Errors.{ok, >>=-ok}
use custom_domain.Model.{Application, Domain, Log, is_deleted}
use custom_domain.Hostname.{Libraries}
use custom_domain.Lifecycle.Sound.{IsSound}
use custom_domain.Lifecycle.Reissued.{reissue_claim_lem}
use custom_domain.Registry.Tables.{Store, visible, get_domain, save}
use custom_domain.Registry.Claim.{claim_domain}
use custom_domain.Registry.Requests.{delete_domain, request_recheck, reissue}
use custom_domain.Registry.Distinct.{Distinct, select-Distinct}
use custom_domain.Registry.Sound.{IsRegistry, save-IsRegistry, get_domain_ok, visible_live}
use custom_domain.Registry.Purge.{purge_tombstones, is_purgeable}
use custom_domain.Lifecycle.Steps.{Reach}
use custom_domain.Lifecycle.Identity.{Reach-SameIdentity}
use custom_domain.Registry.Keeps.{delete_domain-IsRegistry, request_recheck-IsRegistry}
use custom_domain.Registry.ClaimLaws.{claim_domain-IsRegistry}
use custom_domain.Registry.Distinct.{clash, Apart}

-- A purge keeps the database sound.
pub purge_tombstones-IsRegistry :
    (now : Time) (store : Store) → IsRegistry store → IsRegistry (purge_tombstones now store).1
unfolding purge_tombstones
purge_tombstones-IsRegistry now store r =
    let keep = λ (d : Domain). not (is_purgeable now d) in
    record {
      distinct = select-Distinct keep store.domains r.distinct;
      handed_out = All-select (λ d. d.id < store.log.next_id) keep store.domains r.handed_out;
      sound = All-select IsSound keep store.domains r.sound;
    }

module _ (libs : Libraries) (token_urlsafe : ℕ → ℕ → Text) where
  -- Re-issuing a claim keeps the database sound.
  pub reissue-IsRegistry :
      (a : Application) (id : ℕ) (now : Time) (store : Store) {out : Store}
      → IsRegistry store
      → reissue token_urlsafe a id now store ≡ ok out
      → IsRegistry out
  unfolding reissue
  reissue-IsRegistry a id now store {out} r h =
      let (d, got, rest) = >>=-ok (get_domain a id false store) _ h in
      let found = get_domain_ok a id false store got in
      let sound = first-All IsSound (visible a.id id false) store.domains found r.sound in
      let (s, done, sound', _, same, later) =
        reissue_claim_lem token_urlsafe a.cname_target now d store.log sound
          (visible_live a.id id d (first_sound (visible a.id id false) store.domains found)) in
      let e : save s store ≡ out = ground arith in
      subst IsRegistry e
        (save-IsRegistry (visible a.id id false) d s store r found same sound' later)

  -- A step is an operation that succeeded. `work` stands for the workers: a run of operations on one
  -- live row, written back together.
  pub data StoreStep (store : Store) : Store → Type 0 where
    claim :
        (limit : Option ℕ) (a : Application) (hostname reference : Text) (metadata : Option Text)
        (now : Time) (out : Domain × Store)
        → claim_domain libs token_urlsafe limit a hostname reference metadata now store ≡ ok out
        → StoreStep store out.1
    delete :
        (a : Application) (id : ℕ) (now : Time) (out : Domain × Store)
        → delete_domain a id now store ≡ ok out
        → StoreStep store out.1
    recheck :
        (a : Application) (id : ℕ) (by : Text) (now : Time) (out : Domain × Store)
        → request_recheck a id by now store ≡ ok out
        → StoreStep store out.1
    renewal :
        (a : Application) (id : ℕ) (now : Time) (out : Store)
        → reissue token_urlsafe a id now store ≡ ok out
        → StoreStep store out
    work :
        (p : Domain → Bool) (d : Domain) (s : Domain × Log)
        → first p store.domains ≡ some d
        → Reach token_urlsafe d s.0
        → store.log.next_id ≤ s.1.next_id
        → StoreStep store (save s store)
    purge : (now : Time) → StoreStep store (purge_tombstones now store).1

  pub data StoreReach (store : Store) : Store → Type 0 where
    here : StoreReach store store
    next : {t u : Store} → StoreReach store t → StoreStep t u → StoreReach store u

  pub StoreStep-IsRegistry : {t u : Store} → StoreStep t u → IsRegistry t → IsRegistry u
  StoreStep-IsRegistry {t} (claim limit a hostname reference metadata now out h) r =
      claim_domain-IsRegistry libs token_urlsafe limit a hostname reference metadata now t r h
  StoreStep-IsRegistry {t} (delete a id now out h) r = delete_domain-IsRegistry a id now t r h
  StoreStep-IsRegistry {t} (recheck a id by now out h) r =
      request_recheck-IsRegistry a id by now t r h
  StoreStep-IsRegistry {t} (renewal a id now out h) r = reissue-IsRegistry a id now t r h
  StoreStep-IsRegistry {t} (work p d s found run later) r =
      let (sound, same) =
        Reach-SameIdentity token_urlsafe run (first-All IsSound p t.domains found r.sound) in
      save-IsRegistry p d s t r found same sound later
  StoreStep-IsRegistry {t} (purge now) r = purge_tombstones-IsRegistry now t r

  pub StoreReach-IsRegistry : {t u : Store} → StoreReach t u → IsRegistry t → IsRegistry u
  StoreReach-IsRegistry here r = r
  StoreReach-IsRegistry (next run st) r = StoreStep-IsRegistry st (StoreReach-IsRegistry run r)

-- The live rows with a hostname.
abbrev pub live_named : Text → Domain → Bool
live_named hostname d = not (is_deleted d) && text_eq d.hostname hostname

Apart-none :
    (hostname : Text) (d : Domain) (rows : List Domain)
    → live_named hostname d ≡ true
    → All (Apart d) rows
    → count (live_named hostname) rows ≡ 0
unfolding clash
Apart-none hostname d [] h a = refl
Apart-none hostname d (e ∷ es) h (p, a) = ground (
  arith,
  p.1,
  Apart-none hostname d es h a,
  text_eq_iff d.hostname hostname,
  text_eq_iff e.hostname hostname,
  text_eq_iff d.hostname e.hostname,
)

pub one_live_row :
    (hostname : Text) (rows : List Domain) → Distinct rows → count (live_named hostname) rows ≤ 1
one_live_row hostname [] k = omega arith
one_live_row hostname (d ∷ ds) (a, k) =
    ground (arith, Apart-none hostname d ds, one_live_row hostname ds k)

-- From a sound database, whatever operations succeed and in whatever order, every hostname has
-- at most one live row across all applications.
pub hostname_unique :
    (libs : Libraries) (token_urlsafe : ℕ → ℕ → Text) (hostname : Text) {t u : Store}
    → IsRegistry t
    → StoreReach libs token_urlsafe t u
    → count (live_named hostname) u.domains ≤ 1
hostname_unique libs token_urlsafe hostname {u} r run =
    one_live_row hostname u.domains (StoreReach-IsRegistry libs token_urlsafe run r).distinct
