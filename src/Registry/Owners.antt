-- ===== src/Registry/Owners.antt =====
-- The database of app/services/domains.py as a map from hostnames to the applications that own them.
use custom_domain.Common.{
  ℕ, ◌≡◌, refl, sym, subst, ◌∙◌, inl, inr, Bool, true, false, not, ◌&&◌, Option, none, some, List,
  [], ◌∷◌, ◌++◌, first, select, Text, text_eq, text_eq_iff, All, first-All, arith, Time,
  if◌then◌else◌,
}
use custom_domain.Model.{Domain, is_deleted}
use custom_domain.Lifecycle.Sound.{SameIdentity, SameIdentity-refl}
use custom_domain.Registry.Tables.{put_row}
use custom_domain.Registry.Claim.{is_claimed}
use custom_domain.Registry.Purge.{is_purgeable}
use custom_domain.Registry.Distinct.{
  clash, Apart, Distinct, put_row_here, put_row_later, found_first,
}

-- The application of the row that `find_live_by_hostname` finds.
abbrev pub owner_of : Option Domain → Option ℕ
owner_of none = none
owner_of (some d) = some d.application_id

abbrev pub owner_in : Text → List Domain → Option ℕ
owner_in hostname rows =
    owner_of (first (λ d. not (is_deleted d) && text_eq d.hostname hostname) rows)

-- A hostname that is not claimed has no owner.
pub unclaimed-owner :
    (hostname : Text) (rows : List Domain)
    → is_claimed hostname rows ≡ false
    → owner_in hostname rows ≡ none
unclaimed-owner hostname [] h = refl
unclaimed-owner hostname (d ∷ ds) h = ground (arith, unclaimed-owner hostname ds)

-- A row that is appended owns its hostname, if it was free.
pub owner-append :
    (k : Text) (rows : List Domain) (d : Domain)
    → is_deleted d ≡ false
    → is_claimed d.hostname rows ≡ false
    → owner_in k (rows ++ d ∷ [])
      ≡ (if text_eq d.hostname k then some d.application_id else owner_in k rows)
owner-append k [] d live free = ground arith
owner-append k (r ∷ rs) d live free = ground (
  arith,
  owner-append k rs d live,
  text_eq_iff r.hostname k,
  text_eq_iff d.hostname k,
  text_eq_iff r.hostname d.hostname,
)

Apart-owner :
    (k : Text) (d : Domain) (rows : List Domain)
    → is_deleted d ≡ false
    → text_eq d.hostname k ≡ true
    → All (Apart d) rows
    → owner_in k rows ≡ none
unfolding clash
Apart-owner k d [] live h a = refl
Apart-owner k d (r ∷ rs) live h (p, a) = ground (
  arith,
  p.1,
  Apart-owner k d rs live h a,
  text_eq_iff d.hostname k,
  text_eq_iff r.hostname k,
  text_eq_iff d.hostname r.hostname,
)

owner-skip :
    (k : Text) (d : Domain) (rows : List Domain)
    → (not (is_deleted d) && text_eq d.hostname k) ≡ false
    → owner_in k (d ∷ rows) ≡ owner_in k rows
owner-skip k d rows h = ground arith

-- A live row that a lookup found owns its hostname.
pub live_owner :
    (p : Domain → Bool) (d : Domain) (rows : List Domain)
    → is_deleted d ≡ false
    → Distinct rows
    → first p rows ≡ some d
    → owner_in d.hostname rows ≡ some d.application_id
unfolding clash
live_owner p d [] live apart h = absurd (ground arith)
live_owner p d (e ∷ es) live (a, rest) h = elim (found_first p d d (SameIdentity-refl d) e es h) [
  | inl here ↦
      subst (λ (x : Domain). owner_in d.hostname (x ∷ es) ≡ some d.application_id) (sym here)
        (ground (arith, text_eq_iff d.hostname d.hostname))
  | inr (later, _) ↦
      let apart = first-All (Apart e) p es later a in
      ground (arith, live_owner p d es live rest later, apart.1)
]

module _ (p : Domain → Bool) (d d' : Domain) (s : SameIdentity d d') where
  -- The write of a row that is as live as before.
  pub owner-put_row_kept :
      (k : Text) (rows : List Domain)
      → is_deleted d' ≡ is_deleted d
      → Distinct rows
      → first p rows ≡ some d
      → owner_in k (put_row d' rows) ≡ owner_in k rows
  owner-put_row_kept k [] same apart h = refl
  owner-put_row_kept k (e ∷ es) same (a, rest) h = elim (found_first p d d' s e es h) [
    | inl here ↦
        let a' = subst (λ (x : Domain). All (Apart x) es) here a in
        subst (λ (x : Domain). owner_in k (put_row d' (x ∷ es)) ≡ owner_in k (x ∷ es)) (sym here)
          (subst (λ (xs : List Domain). owner_in k xs ≡ owner_in k (d ∷ es))
            (sym (put_row_here d' d es s.id a'))
            (ground (arith, same, s.hostname, s.application_id)))
    | inr (later, _) ↦
        let apart = first-All (Apart e) p es later a in
        subst (λ (xs : List Domain). owner_in k xs ≡ owner_in k (e ∷ es))
          (sym (put_row_later d' e es (λ q. apart.0 (q ∙ s.id))))
          (ground (arith, owner-put_row_kept k es same rest later))
  ]

  -- The write of a row that is deleted now.
  pub owner-put_row_freed :
      (k : Text) (rows : List Domain)
      → is_deleted d ≡ false
      → is_deleted d' ≡ true
      → Distinct rows
      → first p rows ≡ some d
      → owner_in k (put_row d' rows) ≡ (if text_eq d.hostname k then none else owner_in k rows)
  unfolding clash
  owner-put_row_freed k [] live gone apart h = absurd (ground arith)
  owner-put_row_freed k (e ∷ es) live gone (a, rest) h = elim (found_first p d d' s e es h) [
    | inl here ↦
        let a' = subst (λ (x : Domain). All (Apart x) es) here a in
        subst
          (λ (x : Domain).
            owner_in k (put_row d' (x ∷ es))
            ≡ (if text_eq d.hostname k then none else owner_in k (x ∷ es)))
          (sym here)
          (subst
            (λ (xs : List Domain).
              owner_in k xs ≡ (if text_eq d.hostname k then none else owner_in k (d ∷ es)))
            (sym (put_row_here d' d es s.id a'))
            (ground (arith, owner-skip k d' es, Apart-owner k d es live, a')))
    | inr (later, _) ↦
        let apart = first-All (Apart e) p es later a in
        subst
          (λ (xs : List Domain).
            owner_in k xs ≡ (if text_eq d.hostname k then none else owner_in k (e ∷ es)))
          (sym (put_row_later d' e es (λ q. apart.0 (q ∙ s.id))))
          (ground (
            arith,
            owner-put_row_freed k es live gone rest later,
            apart.1,
            text_eq_iff e.hostname k,
            text_eq_iff d.hostname k,
            text_eq_iff e.hostname d.hostname,
          ))
  ]

-- A purge only removes rows that own nothing.
pub owner-purged :
    (k : Text) (now : Time) (rows : List Domain)
    → owner_in k (select (λ d. not (is_purgeable now d)) rows) ≡ owner_in k rows
owner-purged k now [] = refl
owner-purged k now (d ∷ ds) = ground (arith, owner-purged k now ds)
