-- ===== src/Registry/Distinct.antt =====
-- No two rows share an identifier, and no two live rows share a hostname.
use custom_domain.Common.{
  ◌<◌, ◌≡◌, ◌≢◌, refl, sym, subst, ◌⊎◌, inl, inr, Bool, false, not, ◌&&◌, some, List, [], ◌∷◌, ◌++◌,
  arith, text_eq, first, select, All, first-All, All-select, All-append, Bool-cases, ◌∙◌,
}
use custom_domain.Model.{Domain, is_deleted}
use custom_domain.Lifecycle.Sound.{SameIdentity}
use custom_domain.Registry.Tables.{put_row}
use custom_domain.Registry.Claim.{is_claimed}

-- Two live rows with one hostname.
unfoldable pub clash : Domain → Domain → Bool
clash d e = not (is_deleted d) && not (is_deleted e) && text_eq d.hostname e.hostname

abbrev pub Apart : Domain → Domain → Type 0
Apart d e = (d.id ≢ e.id) × (clash d e ≡ false)

abbrev pub Distinct : List Domain → Type 0
Distinct [] = Unit
Distinct (d ∷ ds) = All (Apart d) ds × Distinct ds

Apart-left : (d d' e : Domain) → SameIdentity d d' → Apart d e → Apart d' e
unfolding clash
Apart-left d d' e s a = ground (arith, a.0)

Apart-right : (d d' e : Domain) → SameIdentity d d' → Apart e d → Apart e d'
unfolding clash
Apart-right d d' e s a = ground (arith, a.0)

All-Apart-left :
    (d d' : Domain) (es : List Domain) → SameIdentity d d' → All (Apart d) es → All (Apart d') es
All-Apart-left d d' [] s a = tt
All-Apart-left d d' (e ∷ es) s (h, a) = (Apart-left d d' e s h, All-Apart-left d d' es s a)

put_row_absent :
    (d' : Domain) (d : Domain) (rows : List Domain)
    → d'.id ≡ d.id
    → All (Apart d) rows
    → put_row d' rows ≡ rows
put_row_absent d' d [] s a = refl
put_row_absent d' d (e ∷ es) s (h, a) = ground (arith, put_row_absent d' d es s a)

pub All-put_row {κ} :
    (P : Domain → Type κ) (d' : Domain) (rows : List Domain)
    → All P rows
    → P d'
    → All P (put_row d' rows)
All-put_row P d' [] a p = tt
All-put_row P d' (e ∷ es) (h, a) p = ground (arith, All-put_row P d' es a p)

pub put_row_here :
    (d' : Domain) (d : Domain) (es : List Domain)
    → d'.id ≡ d.id
    → All (Apart d) es
    → put_row d' (d ∷ es) ≡ d' ∷ es
put_row_here d' d es s a = ground (arith, put_row_absent d' d es s a)

pub put_row_later :
    (d' : Domain) (e : Domain) (es : List Domain)
    → e.id ≢ d'.id
    → put_row d' (e ∷ es) ≡ e ∷ put_row d' es
put_row_later d' e es h = ground arith

module _ (p : Domain → Bool) (d d' : Domain) (s : SameIdentity d d') where
  -- Writing back the row that a lookup found.
  pub found_first :
      (e : Domain) (es : List Domain)
      → first p (e ∷ es) ≡ some d
      → (e ≡ d) ⊎ ((first p es ≡ some d) × (p e ≡ false))
  found_first e es h = elim (Bool-cases (p e)) [
    | inl t ↦ let q : some e ≡ some d = rw t at h in inl (ground arith)
    | inr f ↦ inr (rw f at h, f)
  ]

  put_row-Apart :
      (r : Domain) (rows : List Domain)
      → All (Apart r) rows
      → first p rows ≡ some d
      → All (Apart r) (put_row d' rows)
  put_row-Apart r rows a h =
      All-put_row (Apart r) d' rows a (Apart-right d d' r s (first-All (Apart r) p rows h a))

  pub put_row-Distinct :
      (rows : List Domain) → Distinct rows → first p rows ≡ some d → Distinct (put_row d' rows)
  put_row-Distinct [] k h = tt
  put_row-Distinct (e ∷ es) (a, k) h = elim (found_first e es h) [
    | inl same ↦
        let a' = subst (λ (x : Domain). All (Apart x) es) same a in
        subst (λ (x : Domain). Distinct (put_row d' (x ∷ es))) (sym same)
          (subst Distinct (sym (put_row_here d' d es s.id a')) (All-Apart-left d d' es s a', k))
    | inr (later, _) ↦
        let apart = first-All (Apart e) p es later a in
        subst Distinct (sym (put_row_later d' e es (λ q. apart.0 (q ∙ s.id))))
          (put_row-Apart e es a later, put_row-Distinct es k later)
  ]

-- An insert that the unique index and the fresh identifier let through.
pub insert-Distinct :
    (rows : List Domain) (d : Domain)
    → Distinct rows
    → All (λ r. r.id < d.id) rows
    → is_claimed d.hostname rows ≡ false
    → Distinct (rows ++ d ∷ [])
unfolding clash
insert-Distinct [] d k b f = (tt, tt)
insert-Distinct (e ∷ es) d (a, k) (lt, b) f =
    (All-append (Apart e) es (d ∷ []) a (ground arith), insert-Distinct es d k b (ground arith))

-- A selection of rows.
pub select-Distinct :
    (p : Domain → Bool) (rows : List Domain) → Distinct rows → Distinct (select p rows)
select-Distinct p [] k = tt
select-Distinct p (e ∷ es) (a, k) =
    ground (arith, select-Distinct p es k, All-select (Apart e) p es a)
