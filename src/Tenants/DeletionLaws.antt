-- ===== src/Tenants/DeletionLaws.antt =====
-- The loop of `delete_application` of app/services/applications.py over the live domains.
use custom_domain.Common.{
  ℕ, ◌==◌, ◌≡◌, refl, sym, subst, ◌∙◌, inl, inr, true, false, some, List, [], ◌∷◌, map, select,
  first, any, Time, All, All-map, arith, Bool-cases, first_sound,
}
use custom_domain.Errors.{ok, is_ok, >>=-ok}
use custom_domain.Model.{Application, Domain}
use custom_domain.Lifecycle.Claims.{tombstone}
use custom_domain.Lifecycle.Ownership.{tombstone-SameIdentity, tombstone-is_deleted}
use custom_domain.Registry.{Store, visible, get_domain, put_row, save, live_domains, delete_domain}
use custom_domain.Registry.Sound.{IsRegistry, get_domain_ok}
use custom_domain.Registry.Keeps.{delete_domain-IsRegistry}
use custom_domain.Tenants.Applications.{is_live_of, delete_each}

-- The live rows of the application are among these.
abbrev Among : Application → List ℕ → Domain → Type 0
Among a ids d = is_live_of a d ≡ true → any (λ i. d.id == i) ids ≡ true

-- A write of one row, where the other rows are looked at too.
put_row-All :
    (P : Domain → Type 0) (Q : Domain → Type 0) (d : Domain) (rows : List Domain)
    → ((r : Domain) → (r.id == d.id) ≡ false → P r → Q r)
    → Q d
    → All P rows
    → All Q (put_row d rows)
put_row-All P Q d [] f q a = tt
put_row-All P Q d (r ∷ rs) f q (p, a) = elim (Bool-cases (r.id == d.id)) [
  | inl t ↦ rw t (q, put_row-All P Q d rs f q a)
  | inr n ↦ rw n (f r n p, put_row-All P Q d rs f q a)
]

-- A deletion that succeeded wrote a tombstone over the row with that identifier.
delete_domain_ok :
    (a : Application) (id : ℕ) (now : Time) (store : Store) (out : Domain × Store)
    → delete_domain a id now store ≡ ok out
    → (d : Domain) × (d.id ≡ id) × (out.1 ≡ save (tombstone now d store.log) store)
unfolding delete_domain
delete_domain_ok a id now store out h =
    let (d, got, rest) = >>=-ok (get_domain a id true store) _ h in
    let found =
      first_sound (visible a.id id true) store.domains (get_domain_ok a id true store got) in
    (d, ground (arith, found), ground arith)

delete_domain-Among :
    (a : Application) (i : ℕ) (is : List ℕ) (now : Time) (store : Store) (out : Domain × Store)
    → delete_domain a i now store ≡ ok out
    → All (Among a (i ∷ is)) store.domains
    → All (Among a is) out.1.domains
delete_domain-Among a i is now store out h among =
    let (d, same_id, e) = delete_domain_ok a i now store out h in
    let s = tombstone now d store.log in
    let same = tombstone-SameIdentity now d store.log in
    let gone = tombstone-is_deleted now d store.log in
    let id : s.0.id ≡ i = same.id ∙ same_id in
    subst (λ (t : Store). All (Among a is) t.domains) (sym e)
      (put_row-All (Among a (i ∷ is)) (Among a is) s.0 store.domains
        (λ r n p live. ground (arith, p live)) (λ live. absurd (ground arith)) among)

unlisted_dead :
    (a : Application) (rows : List Domain)
    → All (Among a []) rows
    → All (λ d. is_live_of a d ≡ false) rows
unlisted_dead a [] among = tt
unlisted_dead a (d ∷ ds) (p, among) = (ground (arith, p), unlisted_dead a ds among)

pub delete_each-lem :
    (a : Application) (ids : List ℕ) (now : Time) (store out : Store)
    → delete_each a ids now store ≡ ok out
    → IsRegistry store
    → All (Among a ids) store.domains
    → IsRegistry out × All (λ d. is_live_of a d ≡ false) out.domains
unfolding delete_each
delete_each-lem a [] now store out h r among =
    let e : store ≡ out = ground arith in
    subst (λ (t : Store). IsRegistry t × All (λ d. is_live_of a d ≡ false) t.domains) e
      (r, unlisted_dead a store.domains among)
delete_each-lem a (i ∷ is) now store out h r among =
    let ((d, store'), deleted, rest) = >>=-ok (delete_domain a i now store) _ h in
    delete_each-lem a is now store' out rest (delete_domain-IsRegistry a i now store r deleted)
      (delete_domain-Among a i is now store (d, store') deleted among)

Among-more :
    (a : Application) (i : ℕ) (is : List ℕ) (rows : List Domain)
    → All (Among a is) rows
    → All (Among a (i ∷ is)) rows
Among-more a i is [] among = tt
Among-more a i is (d ∷ ds) (p, among) =
    ((λ live. ground (arith, p live)), Among-more a i is ds among)

abbrev pub live_ids : Application → List Domain → List ℕ
live_ids a rows = map (λ d. d.id) (select (is_live_of a) rows)

pub live_ids-Among : (a : Application) (rows : List Domain) → All (Among a (live_ids a rows)) rows
live_ids-Among a [] = tt
live_ids-Among a (d ∷ ds) = elim (Bool-cases (is_live_of a d)) [
  | inl t ↦
      let e : live_ids a (d ∷ ds) ≡ d.id ∷ live_ids a ds = rw t refl in
      subst (λ ids. All (Among a ids) (d ∷ ds)) (sym e)
        ((λ live. ground arith), Among-more a d.id (live_ids a ds) ds (live_ids-Among a ds))
  | inr f ↦
      let e : live_ids a (d ∷ ds) ≡ live_ids a ds = rw f refl in
      subst (λ ids. All (Among a ids) (d ∷ ds)) (sym e)
        ((λ live. absurd (ground arith)), live_ids-Among a ds)
]

pub no_live_domains :
    (a : Application) (rows : List Domain)
    → All (λ d. is_live_of a d ≡ false) rows
    → live_domains (some a.id) rows ≡ 0
unfolding live_domains
no_live_domains a [] h = refl
no_live_domains a (d ∷ ds) (f, h) = rw f (no_live_domains a ds h)

-- The row with an identifier is there, and stays when a row is written back.
abbrev Present : Application → List Domain → ℕ → Type 0
Present a rows i = any (visible a.id i true) rows ≡ true

Present-put_row :
    (a : Application) (d : Domain) (i j : ℕ) (rows : List Domain)
    → d.id ≡ i
    → visible a.id i true d ≡ true
    → Present a rows j
    → Present a (put_row d rows) j
Present-put_row a d i j [] e v p = p
Present-put_row a d i j (r ∷ rs) e v p = ground (arith, Present-put_row a d i j rs e v)

visible_row :
    (a : Application) (rows : List Domain) (i : ℕ)
    → Present a rows i
    → (d : Domain) × (first (visible a.id i true) rows ≡ some d)
visible_row a [] i p = absurd (ground arith)
visible_row a (r ∷ rs) i p = elim (Bool-cases (visible a.id i true r)) [
  | inl t ↦ rw t (r, refl)
  | inr f ↦ rw f (visible_row a rs i (rw f at p))
]

delete_domain_total :
    (a : Application) (i : ℕ) (now : Time) (store : Store)
    → Present a store.domains i
    → (out : Domain × Store) × (delete_domain a i now store ≡ ok out)
      × ((j : ℕ) → Present a store.domains j → Present a out.1.domains j)
unfolding delete_domain get_domain
delete_domain_total a i now store p =
    let (d, found) = visible_row a store.domains i p in
    let v = first_sound (visible a.id i true) store.domains found in
    let s = tombstone now d store.log in
    let same = tombstone-SameIdentity now d store.log in
    (
      (s.0, save s store),
      rw found refl,
      λ j.
          Present-put_row a s.0 i j store.domains (ground (arith, same.id))
            (ground (arith, same.id, same.application_id)),
    )

pub delete_each_total :
    (a : Application) (ids : List ℕ) (now : Time) (store : Store)
    → All (Present a store.domains) ids
    → is_ok (delete_each a ids now store) ≡ true
unfolding delete_each
delete_each_total a [] now store p = refl
delete_each_total a (i ∷ is) now store (p, ps) =
    let (out, done, keeps) = delete_domain_total a i now store p in
    rw done (
      delete_each_total a is now out.1
        (All-map (Present a store.domains) (Present a out.1.domains) is keeps ps))

pub live_ids-Present :
    (a : Application) (rows : List Domain) → All (Present a rows) (live_ids a rows)
live_ids-Present a [] = tt
live_ids-Present a (d ∷ ds) =
    let later = λ (j : ℕ) (p : Present a ds j). let q : Present a (d ∷ ds) j = ground arith in q in
    elim (Bool-cases (is_live_of a d)) [
      | inl t ↦ rw t (
        ground arith,
        All-map (Present a ds) (Present a (d ∷ ds)) (live_ids a ds) later (live_ids-Present a ds),
      )
      | inr f ↦ rw f (
          All-map (Present a ds) (Present a (d ∷ ds)) (live_ids a ds) later (live_ids-Present a ds))
    ]
