-- ===== src/Checks/Leases.antt =====
-- Laws of `lease_domain` of app/dns/worker.py.
use custom_domain.Common.{
  ℕ, ◌+◌, ◌≤◌, ◌<◌, ◌≡◌, refl, ap, inl, inr, Bool, true, false, ◌&&◌, Option, none, some, List, [],
  ◌∷◌, any, first, update, count, map, select, All, first-All, Time, arith, Bool-cases, ◌∙◌, ◌==◌,
}
use custom_domain.Model.{
  CheckType, CheckStatus, DomainCheck, Domain, is_deleted, active_claim, type_eq_iff,
}
use custom_domain.Lifecycle.Status.{by_type, has_passed, checks_passing}
use custom_domain.Lifecycle.Sound.{IsSound, SameIdentity, has_type}
use custom_domain.Registry.{Store, save, put_row}
use custom_domain.Registry.Sound.{IsRegistry}
use custom_domain.Registry.{make_due}
use custom_domain.Checks.Leasing.{
  among, lease, leasable, lease_row, lease_found, lease_domain, check_due, row_of, due_types,
  due_check_types,
}

abbrev status_of : Option DomainCheck → Option CheckStatus
status_of none = none
status_of (some c) = some c.status

module _ (p : DomainCheck → Bool) (at : Time) where
  count-update_due :
      (t : CheckType) (cs : List DomainCheck)
      → count (has_type t) (update p (make_due at) cs) ≡ count (has_type t) cs
  count-update_due t [] = refl
  count-update_due t (c ∷ cs) = elim (Bool-cases (p c)) [
    | inl y ↦ rw y (ground (arith, count-update_due t cs))
    | inr n ↦ rw n (ground (arith, count-update_due t cs))
  ]

  status-update :
      (t : CheckType) (cs : List DomainCheck)
      → status_of (by_type t (update p (make_due at) cs)) ≡ status_of (by_type t cs)
  unfolding by_type
  status-update t [] = refl
  status-update t (c ∷ cs) = ground (arith, status-update t cs)

  has_passed-update :
      (t : CheckType) (cs : List DomainCheck)
      → has_passed (by_type t (update p (make_due at) cs)) ≡ has_passed (by_type t cs)
  has_passed-update t cs = ground (arith, status-update t cs)

  -- A new time for some checks keeps a row sound.
  pub scheduled-IsSound :
      (d : Domain)
      → IsSound d
      → let d' = record d { checks = update p (make_due at) d.checks } in
        IsSound d' × SameIdentity d d'
  unfolding active_claim checks_passing is_deleted
  scheduled-IsSound d s = (
    record {
      evidence = ground (
        arith,
        s.evidence,
        has_passed-update CheckType.ownership d.checks,
        has_passed-update CheckType.routing d.checks,
        has_passed-update CheckType.certificate d.checks,
        has_passed-update CheckType.origin d.checks,
      );
      tombstone = ground (arith, s.tombstone);
      one_live = s.one_live;
      each_check_once = λ t. count-update_due t d.checks ∙ s.each_check_once t;
    },
    ground arith,
  )

first-put_row :
    (d d' : Domain) (rows : List Domain) (id : ℕ)
    → first (λ r. r.id == id) rows ≡ some d
    → d'.id ≡ d.id
    → first (λ r. r.id == id) (put_row d' rows) ≡ some d'
first-put_row d d' [] id h same = cc
first-put_row d d' (e ∷ es) id h same = ground (arith, first-put_row d d' es id)

abbrev both : Time → CheckType → DomainCheck → Bool
both now t c = check_due now c && has_type t c

among-due :
    (now : Time) (t : CheckType) (cs : List DomainCheck)
    → among (map (λ c. c.check_type) (select (check_due now) cs)) t ≡ true
    → 1 ≤ count (both now t) cs
among-due now t [] h = absurd (ground arith)
among-due now t (c ∷ cs) h = ground (arith, among-due now t cs)

count-due :
    (now : Time) (t : CheckType) (cs : List DomainCheck)
    → count (both now t) cs ≤ count (has_type t) cs
count-due now t [] = omega arith
count-due now t (c ∷ cs) = ground (arith, count-due now t cs)

-- If all checks of a type are due, each of them is.
each_due :
    (now : Time) (t : CheckType) (cs : List DomainCheck)
    → count (has_type t) cs ≤ count (both now t) cs
    → All (λ c. has_type t c ≡ true → check_due now c ≡ true) cs
each_due now t [] h = tt
each_due now t (c ∷ cs) h = (
  λ e. ground (arith, count-due now t cs),
  each_due now t cs (ground (arith, count-due now t cs)),
)

abbrev Settled : Time → List CheckType → List DomainCheck → Type 0
Settled now types cs = All (λ c. among types c.check_type ≡ true → check_due now c ≡ true) cs

-- Until the lease ends no check of the types is due.
leased_not_due :
    (types : List CheckType) (now later : Time) (cs : List DomainCheck)
    → later < now + lease
    → Settled now types cs
    → any
        (leasable later types false)
        (update (leasable now types false) (make_due (now + lease)) cs)
      ≡ false
unfolding check_due
leased_not_due types now later [] h a = refl
leased_not_due types now later (c ∷ cs) h (f, a) = elim (Bool-cases (among types c.check_type)) [
  | inl t ↦ rw (t, f t, t) (ground (arith, leased_not_due types now later cs h a))
  | inr n ↦ rw (n, n) (leased_not_due types now later cs h a)
]

due_once :
    (now : Time) (t : CheckType) (cs : List DomainCheck)
    → count (has_type t) cs ≡ 1
    → among (map (λ c. c.check_type) (select (check_due now) cs)) t ≡ true
    → All (λ c. has_type t c ≡ true → check_due now c ≡ true) cs
due_once now t cs once h = each_due now t cs (omega (arith, among-due now t cs h))

leasable-Settled :
    (now : Time) (types : List CheckType) (cs : List DomainCheck)
    → ((t : CheckType)
        → among types t ≡ true
        → All (λ c. has_type t c ≡ true → check_due now c ≡ true) cs)
    → Settled now types cs
leasable-Settled now types [] h = tt
leasable-Settled now types (c ∷ cs) h = (
  (λ a. (h c.check_type a).0 ((type_eq_iff c.check_type c.check_type).1 refl)),
  leasable-Settled now types cs (λ t a. (h t a).1),
)

-- A lease that succeeded wrote the row.
leased_row :
    (types : List CheckType) (now : Time) (store : Store) (o : Option Domain)
    → (lease_found now types false store o).0 ≡ true
    → (d : Domain) × (o ≡ some d)
      × (lease_found now types false store o
          ≡ (true, save (lease_row now types false d, store.log) store))
leased_row types now store none h = absurd (ground arith)
leased_row types now store (some d) h =
    elim (Bool-cases (any (leasable now types false) d.checks)) [
      | inl t ↦ (d, refl, rw t refl)
      | inr f ↦ absurd (let z = rw f at h in ground arith)
    ]

refused_when_settled :
    (types : List CheckType) (later : Time) (store : Store) (d : Domain)
    → any (leasable later types false) d.checks ≡ false
    → (lease_found later types false store (some d)).0 ≡ false
refused_when_settled types later store d h = rw h refl

-- In a sound database, when a worker has leased the checks of a domain that were due, no other worker that saw the same checks
-- due gets the lease within the two minutes that follow.
pub lease_exclusive :
    (domain_id : ℕ) (now later : Time) (store : Store)
    → IsRegistry store
    → later < now + lease
    → let types = due_check_types domain_id now store in
      let first_lease = lease_domain domain_id now types false store in
      first_lease.0 ≡ true → (lease_domain domain_id later types false first_lease.1).0 ≡ false
unfolding lease_domain lease_row due_check_types
lease_exclusive domain_id now later store r h won =
    let types = due_check_types domain_id now store in
    let (d, found, wrote) = leased_row types now store (row_of domain_id store) won in
    let sound = first-All IsSound (λ r. r.id == domain_id) store.domains found r.sound in
    let known : types ≡ due_types now (some d) = ap (due_types now) found in
    let settled : Settled now types d.checks = rw known (
      leasable-Settled now (due_types now (some d)) d.checks
        (λ t a. due_once now t d.checks (sound.each_check_once t) a)) in
    let next : row_of domain_id (save (lease_row now types false d, store.log) store)
        ≡ some (lease_row now types false d) =
      first-put_row d (lease_row now types false d) store.domains domain_id found refl in
    rw (wrote, next)
      (refused_when_settled types later _ (lease_row now types false d)
        (leased_not_due types now later d.checks h settled))
