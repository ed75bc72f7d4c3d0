-- ===== src/Tenants/OriginSteps.antt =====
-- The origins of an application through its life.
use custom_domain.Common.{
  ℕ, ◌==◌, ◌≤◌, ◌<◌, ◌≡◌, refl, ap, inl, inr, Bool, true, false, not, Option, some, List, [], ◌∷◌,
  ◌++◌, first, select, count, count-append, All, All-append, All-select, Text, Time, arith,
  Bool-cases, Option-cases, subst, first-All, first_sound, ltb,
}
use custom_domain.Errors.{Error, ok, >>=-ok, raise_if, or_raise}
use custom_domain.Hostname.{Libraries, canonicalize, lower}
use custom_domain.Model.{
  Application, VerifiedOrigin, OriginHostHeader, is_verified_origin, serving_origin, active_origin,
}
use custom_domain.Tenants.Origins.{
  record_origin_verification, activate_origin, delete_origin, retire_origin, get_active_origin,
  register_origin, add_origin, default_port, port_or, host_or_raise, new_origin,
}
use custom_domain.Tenants.OriginLaws.{
  Unlike, DistinctOrigins, Trusted, is_live_origin, IsServed, record_origin_verification-IsServed,
  retire_origin-IsServed, activate_origin-IsServed,
}

select-Distinct :
    (p : VerifiedOrigin → Bool) (os : List VerifiedOrigin)
    → DistinctOrigins os
    → DistinctOrigins (select p os)
select-Distinct p [] d = tt
select-Distinct p (q ∷ os) (a, d) = elim (Bool-cases (p q)) [
  | inl t ↦ rw t (All-select (Unlike q) p os a, select-Distinct p os d)
  | inr f ↦ rw f (select-Distinct p os d)
]

count-select :
    (p : VerifiedOrigin → Bool) (os : List VerifiedOrigin)
    → count is_live_origin (select p os) ≤ count is_live_origin os
count-select p [] = omega arith
count-select p (q ∷ os) = ground (arith, count-select p os)

delete_origin-IsServed :
    (o : VerifiedOrigin) (os : List VerifiedOrigin) {out : List VerifiedOrigin}
    → IsServed os
    → delete_origin o os ≡ ok out
    → IsServed out
unfolding delete_origin
delete_origin-IsServed o os {out} s h =
    let keep = λ (r : VerifiedOrigin). not (r.id == o.id) in
    let e : select keep os ≡ out = ground arith in
    subst IsServed e (record {
      distinct = select-Distinct keep os s.distinct;
      trusted = All-select Trusted keep os s.trusted;
      one_active = omega (arith, count-select keep os, s.one_active);
    })

append-Distinct :
    (os : List VerifiedOrigin) (o : VerifiedOrigin)
    → DistinctOrigins os
    → All (λ r. r.id < o.id) os
    → DistinctOrigins (os ++ o ∷ [])
append-Distinct [] o d b = (tt, tt)
append-Distinct (q ∷ os) o (a, d) (lt, b) = (
  All-append (Unlike q) os (o ∷ []) a ((λ e. absurd (omega arith)), tt),
  append-Distinct os o d b,
)

add_origin-IsServed :
    (libs : Libraries) (token_urlsafe : ℕ → ℕ → Text) (o : VerifiedOrigin)
    (os : List VerifiedOrigin) {out : VerifiedOrigin × List VerifiedOrigin}
    → IsServed os
    → All (λ r. r.id < o.id) os
    → o.is_active ≡ false
    → add_origin libs token_urlsafe o os ≡ ok out
    → IsServed out.1
add_origin-IsServed libs token_urlsafe o os {out} s b i h =
    let e : os ++ o ∷ [] ≡ out.1 = ground arith in
    subst IsServed e (record {
      distinct = append-Distinct os o s.distinct b;
      trusted = All-append Trusted os (o ∷ []) s.trusted ((λ t. absurd (ground arith)), tt);
      one_active = ground (arith, count-append is_live_origin os (o ∷ []), s.one_active);
    })

module _ (libs : Libraries) (token_urlsafe : ℕ → ℕ → Text) where
  register_origin-IsServed :
      (a : Application) (host scheme : Text) (port : Option ℕ) (mode : OriginHostHeader) (id : ℕ)
      (os : List VerifiedOrigin) {out : VerifiedOrigin × List VerifiedOrigin}
      → IsServed os
      → All (λ r. r.id < id) os
      → register_origin libs token_urlsafe a host scheme port mode id os ≡ ok out
      → IsServed out.1
  unfolding register_origin
  register_origin-IsServed a host scheme port mode id os s b h =
      let (standard, _, h₁) =
        >>=-ok (or_raise (default_port (lower scheme)) Error.invalid_origin) _ h in
      let (name, _, h₂) = >>=-ok (host_or_raise (canonicalize libs (some host) true)) _ h₁ in
      let (_, _, h₃) =
        >>=-ok (raise_if (ltb 65535 (port_or port standard)) Error.invalid_origin) _ h₂ in
      add_origin-IsServed libs token_urlsafe
        (new_origin libs token_urlsafe a (lower scheme) name (port_or port standard) mode id) os s b
        refl h₃

  -- An operation on the origins that succeeded: `origin` is a row that was loaded, and a new row gets a
  -- fresh identifier.
  pub data OriginStep (os : List VerifiedOrigin) : List VerifiedOrigin → Type 0 where
    register :
        (a : Application) (host scheme : Text) (port : Option ℕ) (mode : OriginHostHeader) (id : ℕ)
        (out : VerifiedOrigin × List VerifiedOrigin)
        → All (λ r. r.id < id) os
        → register_origin libs token_urlsafe a host scheme port mode id os ≡ ok out
        → OriginStep os out.1
    verification :
        (o : VerifiedOrigin) (verified : Bool) (e : Option Text) (now : Time)
        → first (λ r. r.id == o.id) os ≡ some o
        → OriginStep os (record_origin_verification o verified e now os).1
    activate :
        (o : VerifiedOrigin) (out : VerifiedOrigin × List VerifiedOrigin)
        → activate_origin o os ≡ ok out
        → OriginStep os out.1
    retire :
        (o : VerifiedOrigin)
        → first (λ r. r.id == o.id) os ≡ some o
        → OriginStep os (retire_origin o os).1
    remove :
        (o : VerifiedOrigin) (out : List VerifiedOrigin)
        → delete_origin o os ≡ ok out
        → OriginStep os out

  pub data OriginRun (os : List VerifiedOrigin) : List VerifiedOrigin → Type 0 where
    start : OriginRun os os
    further : {ps qs : List VerifiedOrigin} → OriginRun os ps → OriginStep ps qs → OriginRun os qs

  OriginStep-IsServed : {os ps : List VerifiedOrigin} → OriginStep os ps → IsServed os → IsServed ps
  OriginStep-IsServed {os} (register a host scheme port mode id out b h) s =
      register_origin-IsServed a host scheme port mode id os s b h
  OriginStep-IsServed {os} (verification o verified e now f) s =
      record_origin_verification-IsServed o verified e now os s f
  OriginStep-IsServed {os} (activate o out h) s = activate_origin-IsServed o os s h
  OriginStep-IsServed {os} (retire o f) s = retire_origin-IsServed o os s f
  OriginStep-IsServed {os} (remove o out h) s = delete_origin-IsServed o os s h

  OriginRun-IsServed : {os ps : List VerifiedOrigin} → IsServed os → OriginRun os ps → IsServed ps
  OriginRun-IsServed s start = s
  OriginRun-IsServed s (further run st) = OriginStep-IsServed st (OriginRun-IsServed s run)

  -- However the origins of an application are registered, verified, activated, retired and
  -- removed, starting from none, at most one is active, and the origin that serves is the
  -- active one.
  pub one_verified_active :
      (a : Application)
      → OriginRun [] a.origins
      → (count is_live_origin a.origins ≤ 1) × (serving_origin a ≡ get_active_origin a.origins)
  unfolding serving_origin active_origin get_active_origin
  one_verified_active a run =
      let s =
        OriginRun-IsServed (record { distinct = tt; trusted = tt; one_active = omega arith }) run in
      let serves : serving_origin a ≡ get_active_origin a.origins =
        elim (Option-cases (active_origin a)) [
          | inl missing ↦ rw (missing, serving_origin) refl
          | inr (o, found) ↦
              let v = first-All Trusted (λ q. q.is_active) a.origins found s.trusted in
              let q = v (first_sound (λ q. q.is_active) a.origins found) in
              let b : is_verified_origin o.status ≡ true = ap is_verified_origin q in
              rw (found, serving_origin, b) refl
        ] in
      (s.one_active, serves)
