-- ===== src/Tenants/SlugLaws.antt =====
-- The slugs of `create_application` and `delete_application` of app/services/applications.py.
use custom_domain.Common.{
  ℕ, ◌+◌, ◌==◌, ◌≡◌, refl, sym, ap, subst, ◌∙◌, inl, inr, Bool, true, false, some, List, [], ◌∷◌,
  ◌++◌, any, all, take, Text, text_eq, text_eq_iff, codes, Time, All, arith, Bool-cases,
}
use custom_domain.Errors.{Result, ok, is_ok, >>=-ok}
use custom_domain.Hostname.{
  Libraries, Canonical, canonicalize, full_label, drop_newline, is_label_char, is_alnum,
}
use custom_domain.Model.{Application, Domain}
use custom_domain.Registry.{Store, delete_domain, get_domain}
use custom_domain.Tenants.Applications.{
  Tenancy, is_slug, with_slug, put_application, archived_slug, archived, create_application,
  delete_application, delete_each, latest_purge,
}
use custom_domain.Tenants.Credentials.{is_blank}
use custom_domain.Lifecycle.Claims.{tombstone_retention}
use custom_domain.Tenants.ApplicationLaws.{
  confirmed, delete_application-confirmed, delete_application-unconfirmed,
}

-- A tilde is no character of a slug.
has_tilde : Text → Bool
has_tilde s = any (λ c. c == b'~') s

full_label-tilde : (s : Text) → full_label s ≡ true → has_tilde s ≡ false
unfolding has_tilde full_label is_alnum is_label_char
full_label-tilde [] h = refl
full_label-tilde (c ∷ s) h = ground (arith, chars s)
  where
    chars : (t : Text) → all is_label_char t ≡ true → any (λ d. d == b'~') t ≡ false
    chars [] h = refl
    chars (d ∷ t) h = ground (arith, chars t)

drop_newline-tilde : (s : Text) → has_tilde (drop_newline s) ≡ false → has_tilde s ≡ false
unfolding has_tilde drop_newline
drop_newline-tilde [] h = refl
drop_newline-tilde (c ∷ []) h = elim (Bool-cases (c == 10)) [
  | inl t ↦ ground arith
  | inr f ↦ rw f at h
]
drop_newline-tilde (c ∷ d ∷ s) h = ground (arith, drop_newline-tilde (d ∷ s))

is_slug-tilde : (s : Text) → is_slug s ≡ true → has_tilde s ≡ false
unfolding is_slug
is_slug-tilde s h =
    ground (arith, full_label-tilde s, full_label-tilde (drop_newline s), drop_newline-tilde s)

tilde_marked : (s t : Text) → has_tilde (s ++ codes "~" ++ t) ≡ true
unfolding has_tilde
tilde_marked [] t = refl
tilde_marked (c ∷ s) t = ground (arith, tilde_marked s t)

delete_domain-applications :
    (a : Application) (id : ℕ) (now : Time) (store : Store) (out : Domain × Store)
    → delete_domain a id now store ≡ ok out
    → out.1.applications ≡ store.applications
unfolding delete_domain
delete_domain-applications a id now store out h =
    let (d, got, rest) = >>=-ok (get_domain a id true store) _ h in ground arith

delete_each-applications :
    (a : Application) (ids : List ℕ) (now : Time) (store out : Store)
    → delete_each a ids now store ≡ ok out
    → out.applications ≡ store.applications
unfolding delete_each
delete_each-applications a [] now store out h = ground arith
delete_each-applications a (i ∷ is) now store out h =
    let ((d, store'), deleted, rest) = >>=-ok (delete_domain a i now store) _ h in
    delete_each-applications a is now store' out rest
    ∙ delete_domain-applications a i now store (d, store') deleted

-- No other application has the slug.
abbrev pub Sole : Application → List Application → Type 0
Sole a rows = All (λ r. (r.id == a.id) ≡ false → text_eq r.slug a.slug ≡ false) rows

with_slug-archived :
    (a b : Application) (rows : List Application)
    → b.id ≡ a.id
    → text_eq b.slug a.slug ≡ false
    → Sole a rows
    → with_slug a.slug (put_application b rows) ≡ false
with_slug-archived a b [] e f sole = refl
with_slug-archived a b (r ∷ rs) e f (p, sole) = elim (Bool-cases (r.id == b.id)) [
  | inl t ↦ rw (t, f) (with_slug-archived a b rs e f sole)
  | inr n ↦
      let other : text_eq r.slug a.slug ≡ false = p (subst (λ (i : ℕ). (r.id == i) ≡ false) e n) in
      rw (n, other) (with_slug-archived a b rs e f sole)
]

module _ (id_hex : ℕ → Text) (a : Application) where
  archived_slug-differs : is_slug a.slug ≡ true → text_eq (archived_slug id_hex a) a.slug ≡ false
  unfolding has_tilde
  archived_slug-differs h =
      let clean = is_slug-tilde a.slug h in
      let marked : has_tilde (archived_slug id_hex a) ≡ true =
        tilde_marked (take 46 a.slug) (take 12 (id_hex a.id)) in
      elim (Bool-cases (text_eq (archived_slug id_hex a) a.slug)) [
        | inr f ↦ f
        | inl t ↦ absurd (
            let same = ap has_tilde ((text_eq_iff (archived_slug id_hex a) a.slug).0 t) in
            ground arith)
      ]

  -- When the slug of an application is well formed and no other application has it, then once the application is deleted a new
  -- application can be created under the slug, given a name that is not blank and a valid CNAME target.
  pub deleted_slug_is_free :
      (libs : Libraries) (confirm_slug : Text) (delete_domains : Bool) (now : Time)
      (tenancy : Tenancy) (out : ℕ × Tenancy) (name cname_target target : Text)
      → is_slug a.slug ≡ true
      → Sole a tenancy.store.applications
      → delete_application id_hex confirm_slug delete_domains now a tenancy ≡ ok out
      → is_blank name ≡ false
      → canonicalize libs (some cname_target) true ≡ Canonical.ok target
      → is_ok (create_application libs a.slug name cname_target out.1.store) ≡ true
  unfolding create_application archived
  deleted_slug_is_free libs confirm_slug delete_domains now tenancy out name cname_target target
        slug sole h named valid =
      elim (Bool-cases (confirmed id_hex confirm_slug delete_domains now a tenancy)) [
        | inr stop ↦ absurd (
            let e =
              delete_application-unconfirmed id_hex confirm_slug delete_domains now a tenancy
                stop in
            refused _ out e h)
        | inl go ↦
            let (store, done, e) =
              delete_application-confirmed id_hex confirm_slug delete_domains now a tenancy go in
            let b =
              archived id_hex now (latest_purge a (now + tombstone_retention) store.domains) a in
            let rows : out.1.store.applications ≡ put_application b store.applications =
              let same = sym e ∙ h in ground arith in
            let same = delete_each-applications a _ now tenancy.store store done in
            let free : with_slug a.slug out.1.store.applications ≡ false =
              rw (rows, same)
                (with_slug-archived a b tenancy.store.applications refl (archived_slug-differs slug)
                  sole) in
            rw (slug, named, valid, free) refl
      ]
    where
      refused : (r : Result (ℕ × Tenancy)) (out : ℕ × Tenancy) → is_ok r ≡ false → r ≡ ok out → ⊥
      refused r out e h = ground arith
