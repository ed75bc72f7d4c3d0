-- ===== src/Registry/PurgeLaws.antt =====
-- What a purge removes.
use custom_domain.Common.{
  ℕ, ◌+◌, ◌==◌, ==_iff, ◌≡◌, refl, ◌∙◌, inl, inr, Bool, true, false, not, ◌&&◌, none, some, List,
  [], ◌∷◌, first, first_sound, select, count, length, Time, days, leb, ltb, arith, Bool-cases,
  subst,
}
use custom_domain.Errors.{ok}
use custom_domain.Model.{Application, Domain, Log, is_deleted}
use custom_domain.Lifecycle.Claims.{tombstone, revoke_live_claim}
use custom_domain.Registry.Tables.{Store, visible, get_domain, put_row, save}
use custom_domain.Registry.Limits.{live_domains}
use custom_domain.Registry.Requests.{delete_domain}
use custom_domain.Registry.Purge.{has_domain, is_purgeable, purge_tombstones}

count-select-not :
    (p q : Domain → Bool) (rows : List Domain)
    → ((d : Domain) → p d ≡ true → q d ≡ false)
    → count p (select (λ d. not (q d)) rows) ≡ count p rows
count-select-not p q [] h = refl
count-select-not p q (d ∷ ds) h = ground (arith, count-select-not p q ds h, h d)

length-select-not :
    (q : Domain → Bool) (rows : List Domain)
    → length (select (λ d. not (q d)) rows) + count q rows ≡ length rows
length-select-not q [] = omega arith
length-select-not q (d ∷ ds) = ground (arith, length-select-not q ds)

module _ (p : Domain → Bool) (d : Domain) where
  -- A row that was written back is still there after a removal unless it is removed.
  has_domain-put_row :
      (rows : List Domain)
      → has_domain d.id (select (λ r. not (p r)) (put_row d rows))
        ≡ (has_domain d.id rows && not (p d))
  has_domain-put_row [] = refl
  has_domain-put_row (r ∷ rs) = elim (Bool-cases (r.id == d.id)) [
    | inl t ↦ elim (Bool-cases (p d)) [
      | inl y ↦ rw (t, y) (let rest = rw y at (has_domain-put_row rs) in ground arith)
      | inr n ↦ rw (t, n, (==_iff d.id d.id).1 refl) refl
    ]
    | inr f ↦ elim (Bool-cases (p r)) [
      | inl y ↦ rw (f, y) (has_domain-put_row rs)
      | inr n ↦ rw (f, n, f) (has_domain-put_row rs)
    ]
  ]

length-put_row : (d : Domain) (rows : List Domain) → length (put_row d rows) ≡ length rows
length-put_row d [] = refl
length-put_row d (r ∷ rs) = ground (arith, length-put_row d rs)

has_domain-first :
    (q : Domain → Bool) (id : ℕ) (rows : List Domain) {d : Domain}
    → first q rows ≡ some d
    → (d.id == id) ≡ true
    → has_domain id rows ≡ true
has_domain-first q id [] h e = cc
has_domain-first q id (r ∷ rs) h e = elim (Bool-cases (q r)) [
  | inl t ↦ let same = rw t at h in ground arith
  | inr f ↦ let rest = has_domain-first q id rs (rw f at h) e in ground arith
]

-- The tombstone of a live row may be removed once 90 days have passed.
tombstone-purgeable :
    (now later : Time) (d : Domain) (log : Log)
    → is_deleted d ≡ false
    → (is_purgeable later (tombstone now d log).0 ≡ leb (now + days 90) later)
      × ((tombstone now d log).0.id ≡ d.id)
unfolding tombstone revoke_live_claim is_deleted
tombstone-purgeable now later d log live = ground arith

-- A purge after a deletion: the row of a domain that was live when it was deleted is still in the database, for every later instant,
-- exactly when 90 days have not passed since. The purge counts the rows that it removes, and removes no live domain of any
-- application.
pub purge_tombstones_lem :
    (application : Application) (id : ℕ) (now later : Time) (store : Store) {d : Domain}
    {out : Domain × Store}
    → get_domain application id true store ≡ ok d
    → is_deleted d ≡ false
    → delete_domain application id now store ≡ ok out
    → let kept = (purge_tombstones later out.1).1.domains in
      (has_domain id kept ≡ ltb later (now + days 90))
      × (length kept + (purge_tombstones later out.1).0 ≡ length store.domains)
      × (live_domains none kept ≡ live_domains none out.1.domains)
      × ((a : ℕ) → live_domains (some a) kept ≡ live_domains (some a) out.1.domains)
unfolding purge_tombstones live_domains is_deleted get_domain delete_domain
purge_tombstones_lem application id now later store {d} {out} got live h =
    let found : first (visible application.id id true) store.domains ≡ some d = ground arith in
    let sound = first_sound (visible application.id id true) store.domains found in
    let own : d.id ≡ id = ground (arith, ==_iff d.id id) in
    let s = tombstone now d store.log in
    let (due, same) = tombstone-purgeable now later d store.log live in
    let written : save s store ≡ out.1 = ground arith in
    let there = has_domain-first _ id store.domains found ((==_iff d.id id).1 own) in
    let stays : has_domain id (select (λ r. not (is_purgeable later r)) (put_row s.0 store.domains))
        ≡ ltb later (now + days 90) =
      subst
        (λ (i : ℕ).
          has_domain i (select (λ r. not (is_purgeable later r)) (put_row s.0 store.domains))
          ≡ (has_domain i store.domains && not (is_purgeable later s.0)))
        (same ∙ own) (has_domain-put_row (is_purgeable later) s.0 store.domains)
      ∙ rw (there, due) (ground arith) in
    (
      subst
          (λ (t : Store).
            has_domain id (select (λ r. not (is_purgeable later r)) t.domains)
            ≡ ltb later (now + days 90))
          written stays,
      length-select-not (is_purgeable later) out.1.domains
          ∙ subst (λ (t : Store). length t.domains ≡ length store.domains) written
              (length-put_row s.0 store.domains),
      count-select-not _ (is_purgeable later) out.1.domains (λ d h. ground arith),
      λ a. count-select-not _ (is_purgeable later) out.1.domains (λ d h. ground arith),
    )
