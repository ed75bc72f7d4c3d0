-- ===== src/Tenants/CredentialLaws.antt =====
-- The lookup, the authentication and the revocation of API keys, of app/services/applications.py.
use custom_domain.Common.{
  ℕ, ◌==◌, ==_iff, ◌≡◌, ◌≢◌, refl, sym, inl, inr, Bool, true, false, not, ◌&&◌, Option, none, some,
  is_none, List, [], ◌∷◌, first, first-All, first_sound, update, All, Text, Time, text_eq, arith,
  Bool-cases, subst,
}
use custom_domain.Errors.{Error, ok, >>=-ok, raise_if, or_raise}
use custom_domain.Model.{ApiCredential, Application, is_usable}
use custom_domain.Tenants.Credentials.{
  Keys, secret_prefix, starts_with, find_credential, with_credential, owner_active, revoked,
  revoke_credential, authenticate_credential,
}

-- What a key must be to authenticate a secret.
pub record Authenticates (sha256_hex : Text → Text) (secret : Text) (now : Time) (keys : Keys)
    (c : ApiCredential) : Type 0 where
  pub prefixed : starts_with secret_prefix secret ≡ true
  pub stored : first (λ r. text_eq r.key_hash (sha256_hex secret)) keys.credentials ≡ some c
  pub usable : is_usable now c ≡ true
  pub owner : owner_active c.application_id keys.applications ≡ true

or_raise_ok :
    (o : Option ApiCredential) {c : ApiCredential}
    → or_raise o Error.invalid_credential ≡ ok c
    → o ≡ some c
or_raise_ok none h = cc
or_raise_ok (some d) h = ground arith

raise_if_ok : (b : Bool) {u : Unit {0}} → raise_if b Error.invalid_credential ≡ ok u → b ≡ false
raise_if_ok true h = cc
raise_if_ok false h = refl

-- A secret authenticates only as a stored key whose hash is the hash of the secret, that is
-- neither revoked nor expired, and whose application is active, and only if it carries the
-- prefix; what is returned is that key with its time of last use.
pub authenticate_credential_ok :
    (sha256_hex : Text → Text) (secret : Text) (now : Time) (keys : Keys)
    {out : ApiCredential × Keys}
    → authenticate_credential sha256_hex (some secret) now keys ≡ ok out
    → (c : ApiCredential) × Authenticates sha256_hex secret now keys c
      × (out.0 ≡ record c { last_used_at = some now })
unfolding authenticate_credential
authenticate_credential_ok sha256_hex secret now keys {out} h =
    let prefixed = starts_with secret_prefix secret in
    let found = first (λ r. text_eq r.key_hash (sha256_hex secret)) keys.credentials in
    let (_, p, more) = >>=-ok (raise_if (not prefixed) Error.invalid_credential) _ h in
    let (c, q, more₂) = >>=-ok (or_raise found Error.invalid_credential) _ more in
    let (_, u, more₃) =
      >>=-ok (raise_if (not (is_usable now c)) Error.invalid_credential) _ more₂ in
    let (_, o, last) =
      >>=-ok
        (raise_if (not (owner_active c.application_id keys.applications)) Error.invalid_credential)
        _ more₃ in
    let p' = raise_if_ok (not prefixed) p in
    let u' = raise_if_ok (not (is_usable now c)) u in
    let o' = raise_if_ok (not (owner_active c.application_id keys.applications)) o in
    (
      c,
      record {
        prefixed = ground arith;
        stored = or_raise_ok found q;
        usable = ground arith;
        owner = ground arith;
      },
      ground arith,
    )

abbrev Gone : ℕ → ApiCredential → Type 0
Gone id c = c.id ≡ id → is_none c.revoked_at ≡ false

revoked-Gone : (now : Time) (c : ApiCredential) → is_none (revoked now c).revoked_at ≡ false
unfolding revoked
revoked-Gone now c = ground arith

update-Gone :
    (d : ApiCredential) (rows : List ApiCredential)
    → is_none d.revoked_at ≡ false
    → All (Gone d.id) (update (λ r. r.id == d.id) (λ _. d) rows)
update-Gone d [] h = tt
update-Gone d (r ∷ rs) h = elim (Bool-cases (r.id == d.id)) [
  | inl t ↦ rw t (λ _. h, update-Gone d rs h)
  | inr f ↦ rw f (λ e. absurd (ground (arith, ==_iff r.id d.id)), update-Gone d rs h)
]

pub find_credential_ok :
    (application : Application) (id : ℕ) (keys : Keys) {c : ApiCredential}
    → find_credential application id keys ≡ ok c
    → (first (λ r. r.id == id && r.application_id == application.id) keys.credentials ≡ some c)
      × (c.id ≡ id)
      × (c.application_id ≡ application.id)
unfolding find_credential
find_credential_ok application id keys {c} h =
    let p = λ (r : ApiCredential). r.id == id && r.application_id == application.id in
    let got : first p keys.credentials ≡ some c = ground arith in
    let s = first_sound p keys.credentials got in (got, ground arith, ground arith)

-- After a key was revoked, no secret authenticates as it any more, at any time.
pub revoked_never_authenticates :
    (sha256_hex : Text → Text) (application : Application) (id : ℕ) (now later : Time) (keys : Keys)
    (secret : Text) {out : ApiCredential × Keys} {got : ApiCredential × Keys}
    → revoke_credential application id now keys ≡ ok out
    → authenticate_credential sha256_hex (some secret) later out.1 ≡ ok got
    → got.0.id ≢ id
unfolding revoke_credential revoked is_usable
revoked_never_authenticates sha256_hex application id now later keys secret {out} {got} h e same =
    let (c, found, rest) = >>=-ok (find_credential application id keys) _ h in
    let (_, own, _) = find_credential_ok application id keys found in
    let (d, auth, shown) = authenticate_credential_ok sha256_hex secret later out.1 e in
    let is_out : with_credential (revoked now c) keys ≡ out.1 = ground arith in
    let stored =
      subst
        (λ (k : Keys). first (λ r. text_eq r.key_hash (sha256_hex secret)) k.credentials ≡ some d)
        (sym is_out) auth.stored in
    let gone =
      first-All (Gone c.id) _ _ stored
        (update-Gone (revoked now c) keys.credentials (revoked-Gone now c)) in
    absurd (let u = auth.usable in let g = gone (ground arith) in ground arith)
