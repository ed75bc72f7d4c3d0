-- ===== src/Tenants/KeyRotation.antt =====
-- `rotate_credential` of app/services/applications.py and the keys as they are stored.
use custom_domain.Common.{
  ℕ, ◌+◌, ◌<◌, ◌++◌, ◌==◌, ==_iff, ◌≡◌, refl, sym, inl, inr, Bool, true, false, ◌&&◌, Option, none,
  some, List, [], ◌∷◌, first, first-All, update, All, ltb, Text, Time, arith, Bool-cases, subst,
}
use custom_domain.Errors.{ok, >>=-ok}
use custom_domain.Model.{CredentialScope, ApiCredential, Application, is_usable}
use custom_domain.Tenants.Credentials.{
  Keys, find_credential, with_credential, curtailed, issue_credential, label_or, rotate_credential,
}
use custom_domain.Tenants.CredentialLaws.{find_credential_ok}

curtailed_usable :
    (cutoff at : Time) (c : ApiCredential)
    → is_usable at (curtailed cutoff c) ≡ (is_usable at c && ltb at cutoff)
unfolding curtailed is_usable
curtailed_usable cutoff at c = ground arith

-- The row that a method of an application finds is the one that was written back for it.
first-updated :
    (p : ApiCredential → Bool) (d : ApiCredential) (rows : List ApiCredential) {c : ApiCredential}
    → first p rows ≡ some c
    → d.id ≡ c.id
    → p d ≡ true
    → first p (update (λ r. r.id == d.id) (λ _. d) rows) ≡ some d
first-updated p d [] found same h = cc
first-updated p d (r ∷ rs) found same h = elim (Bool-cases (p r)) [
  | inl t ↦
      let own : r.id ≡ d.id = let f = rw t at found in ground arith in
      rw ((==_iff r.id d.id).1 own, h) refl
  | inr f ↦
      let later = first-updated p d rs (rw f at found) same h in
      elim (Bool-cases (r.id == d.id)) [ inl t ↦ rw (t, h) refl | inr g ↦ rw (g, f) later ]
]

first-append :
    (p : ApiCredential → Bool) (rows added : List ApiCredential) {c : ApiCredential}
    → first p rows ≡ some c
    → first p (rows ++ added) ≡ some c
first-append p [] added found = cc
first-append p (r ∷ rs) added found = elim (Bool-cases (p r)) [
  | inl t ↦ rw t (rw t at found)
  | inr f ↦ rw f (first-append p rs added (rw f at found))
]

abbrev of_application : ℕ → ℕ → ApiCredential → Bool
of_application id application_id c = c.id == id && c.application_id == application_id

-- A row that was added under a new identifier is found by it, whichever older row was written back.
first-added :
    (c d : ApiCredential) (rows : List ApiCredential)
    → All (λ r. r.id < c.id) rows
    → d.id < c.id
    → first
        (of_application c.id c.application_id)
        (update (λ r. r.id == d.id) (λ _. d) (rows ++ c ∷ []))
      ≡ some c
first-added c d [] a h = ground (arith, ==_iff c.id d.id)
first-added c d (r ∷ rs) (l, a) h = elim (Bool-cases (r.id == d.id)) [
  | inl t ↦
      let other : (d.id == c.id) ≡ false = ground (arith, ==_iff d.id c.id) in
      rw (t, other) (first-added c d rs a h)
  | inr f ↦
      let other : (r.id == c.id) ≡ false = ground (arith, ==_iff r.id c.id) in
      rw (f, other) (first-added c d rs a h)
]

-- Every key has an identifier that was handed out.
abbrev pub Issued : Keys → Type 0
Issued keys = All (λ c. c.id < keys.next_id) keys.credentials

-- What an issue of a key adds.
issued_key :
    (sha256_hex : Text → Text) (token_urlsafe : ℕ → ℕ → Text) (application : Application)
    (label : Text) (scope : CredentialScope) (keys : Keys) {out : (ApiCredential × Text) × Keys}
    → issue_credential sha256_hex token_urlsafe application label none scope keys ≡ ok out
    → (out.1.credentials ≡ keys.credentials ++ out.0.0 ∷ [])
      × (out.0.0.id ≡ keys.next_id)
      × (out.0.0.application_id ≡ application.id)
      × (out.0.0.scope ≡ scope)
      × (out.0.0.key_hash ≡ sha256_hex out.0.1)
      × ((at : Time) → is_usable at out.0.0 ≡ true)
unfolding issue_credential is_usable
issued_key sha256_hex token_urlsafe application label scope keys h =
    (ground arith, ground arith, ground arith, ground arith, ground arith, λ at. ground arith)

find_old :
    (application : Application) (id : ℕ) (kept old new : ApiCredential) (keys keys' : Keys)
    → first (of_application id application.id) keys.credentials ≡ some old
    → keys'.credentials ≡ keys.credentials ++ new ∷ []
    → kept.id ≡ old.id
    → of_application id application.id kept ≡ true
    → find_credential application id (with_credential kept keys') ≡ ok kept
unfolding find_credential
find_old application id kept old new keys keys' found added same own =
    rw
      (
        added,
        first-updated (of_application id application.id) kept (keys.credentials ++ new ∷ [])
            (first-append _ keys.credentials (new ∷ []) found) same own,
      )
      refl

find_new :
    (application : Application) (kept new : ApiCredential) (keys keys' : Keys)
    → Issued keys
    → keys'.credentials ≡ keys.credentials ++ new ∷ []
    → new.id ≡ keys.next_id
    → new.application_id ≡ application.id
    → kept.id < keys.next_id
    → find_credential application keys.next_id (with_credential kept keys') ≡ ok new
unfolding find_credential
find_new application kept new keys keys' all added new_id owner below =
    let found =
      first-added new kept keys.credentials
        (subst (λ n. All (λ r. r.id < n) keys.credentials) (sym new_id) all) (omega arith) in
    let written = update (λ r. r.id == kept.id) (λ _. kept) (keys.credentials ++ new ∷ []) in
    let read =
      subst (λ (n : ℕ). first (of_application n application.id) written ≡ some new) new_id
        (subst (λ (o : ℕ). first (of_application new.id o) written ≡ some new) owner found) in
    rw (added, read) refl

curtailed-identity :
    (cutoff : Time) (c : ApiCredential)
    → ((curtailed cutoff c).id ≡ c.id) × ((curtailed cutoff c).application_id ≡ c.application_id)
unfolding curtailed
curtailed-identity cutoff c = ground arith

-- Where every key has an identifier that was handed out: after a rotation the application finds, among the keys as they are stored, a
-- new key under a new identifier, with the hash of the secret that is returned, the scope of the old one and no end of its use;
-- and under the old identifier the old key, which is usable at exactly the times before the end of the grace period at which it was
-- usable without the rotation.
pub rotate_credential_lem :
    (sha256_hex : Text → Text) (token_urlsafe : ℕ → ℕ → Text) (application : Application) (id : ℕ)
    (label : Option Text) (grace now : Time) (keys : Keys)
    {out : (ApiCredential × Text) × ApiCredential × Keys}
    → Issued keys
    → rotate_credential sha256_hex token_urlsafe application id label grace now keys ≡ ok out
    → (old : ApiCredential) × (kept : ApiCredential) × (new : ApiCredential) × (find_credential
          application id keys
        ≡ ok old)
      × ((find_credential application id out.2 ≡ ok kept)
          × ((at : Time) → is_usable at kept ≡ (is_usable at old && ltb at (now + grace))))
      × ((find_credential application keys.next_id out.2 ≡ ok new)
          × (new.scope ≡ old.scope)
          × (new.key_hash ≡ sha256_hex out.0.1)
          × ((at : Time) → is_usable at new ≡ true))
unfolding rotate_credential
rotate_credential_lem sha256_hex token_urlsafe application id label grace now keys {out} all h =
    let (old, found, rest) = >>=-ok (find_credential application id keys) _ h in
    let (first_old, same, mine) = find_credential_ok application id keys found in
    let (issued, made, last) =
      >>=-ok
        (issue_credential sha256_hex token_urlsafe application (label_or label old.label) none
          old.scope keys)
        _ rest in
    let (added, new_id, owner, scope, hash, usable) =
      issued_key sha256_hex token_urlsafe application (label_or label old.label) old.scope keys
        made in
    let kept = curtailed (now + grace) old in
    let alike = curtailed-identity (now + grace) old in
    let below : kept.id < keys.next_id =
      let l = first-All (λ c. c.id < keys.next_id) _ keys.credentials first_old all in
      omega arith in
    let stored : with_credential kept issued.1 ≡ out.2 = ground arith in
    (
      old,
      kept,
      issued.0.0,
      found,
      (
        subst (λ k. find_credential application id k ≡ ok kept) stored
            (find_old application id kept old issued.0.0 keys issued.1 first_old added alike.0
              (ground arith)),
        λ at. curtailed_usable (now + grace) at old,
      ),
      (
        subst (λ k. find_credential application keys.next_id k ≡ ok issued.0.0) stored
            (find_new application kept issued.0.0 keys issued.1 all added new_id owner below),
        scope,
        ground arith,
        usable,
      ),
    )
