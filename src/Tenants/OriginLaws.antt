-- ===== src/Tenants/OriginLaws.antt =====
-- Which origin carries the traffic of an application.
use custom_domain.Common.{
  ℕ, ◌==◌, ==_iff, ◌≤◌, ◌≡◌, ◌≢◌, refl, sym, ◌∙◌, inl, inr, Bool, true, false, not, ◌&&◌, Option,
  some, List, [], ◌∷◌, first, update, count, All, Text, Time, arith, Bool-cases, subst, first-All,
}
use custom_domain.Errors.{ok}
use custom_domain.Model.{VerifiedOrigin, OriginStatus}
use custom_domain.Tenants.Origins.{
  put_origin, record_origin_verification, activate_origin, retire_origin,
}

abbrev pub Unlike : VerifiedOrigin → VerifiedOrigin → Type 0
Unlike o p = o.id ≢ p.id

abbrev pub DistinctOrigins : List VerifiedOrigin → Type 0
DistinctOrigins [] = Unit
DistinctOrigins (o ∷ os) = All (Unlike o) os × DistinctOrigins os

-- Traffic only goes to an origin whose verification holds.
abbrev pub Trusted : VerifiedOrigin → Type 0
Trusted o = o.is_active ≡ true → o.status ≡ OriginStatus.verified

abbrev pub is_live_origin : VerifiedOrigin → Bool
is_live_origin o = o.is_active

-- The invariant of an application's origins.
pub record IsServed (origins : List VerifiedOrigin) : Type 0 where
  pub distinct : DistinctOrigins origins
  pub trusted : All Trusted origins
  pub one_active : count is_live_origin origins ≤ 1

-- Writing a row with the identifier of one there.
All-put_origin {κ} :
    (P : VerifiedOrigin → Type κ) (o : VerifiedOrigin) (os : List VerifiedOrigin)
    → All P os
    → P o
    → All P (put_origin o os)
All-put_origin P o [] a p = tt
All-put_origin P o (q ∷ os) (h, a) p = ground (arith, All-put_origin P o os a p)

Unlike-put_origin :
    (r o : VerifiedOrigin) (os : List VerifiedOrigin)
    → All (Unlike r) os
    → All (Unlike r) (put_origin o os)
Unlike-put_origin r o [] a = tt
Unlike-put_origin r o (q ∷ os) (h, a) = elim (Bool-cases (q.id == o.id)) [
  | inl t ↦ rw t ((λ e. h (e ∙ sym ((==_iff q.id o.id).0 t))), Unlike-put_origin r o os a)
  | inr f ↦ rw f (h, Unlike-put_origin r o os a)
]

put_origin-Distinct :
    (o : VerifiedOrigin) (os : List VerifiedOrigin)
    → DistinctOrigins os
    → DistinctOrigins (put_origin o os)
put_origin-Distinct o [] d = tt
put_origin-Distinct o (q ∷ os) (a, d) = elim (Bool-cases (q.id == o.id)) [
  | inl t ↦ rw t (
    subst (λ (i : ℕ). All (λ p. i ≢ p.id) (put_origin o os)) ((==_iff q.id o.id).0 t)
        (Unlike-put_origin q o os a),
    put_origin-Distinct o os d,
  )
  | inr f ↦ rw f (Unlike-put_origin q o os a, put_origin-Distinct o os d)
]

count-absent :
    (o' o : VerifiedOrigin) (os : List VerifiedOrigin)
    → o'.id ≡ o.id
    → All (Unlike o) os
    → count is_live_origin (put_origin o' os) ≡ count is_live_origin os
count-absent o' o [] s a = refl
count-absent o' o (q ∷ os) s (h, a) = ground (arith, count-absent o' o os s a)

-- A write of a row that was looked up, and that is active only if it was.
count-put_origin :
    (o' o : VerifiedOrigin) (os : List VerifiedOrigin)
    → DistinctOrigins os
    → first (λ r. r.id == o.id) os ≡ some o
    → o'.id ≡ o.id
    → (o'.is_active && not o.is_active) ≡ false
    → count is_live_origin (put_origin o' os) ≤ count is_live_origin os
count-put_origin o' o [] d f s h = cc
count-put_origin o' o (q ∷ os) (a, d) f s h = elim (Bool-cases (q.id == o.id)) [
  | inl t ↦
      let same : q ≡ o = (let e : some q ≡ some o = rw t at f in ground arith) in
      let rest = count-absent o' q os (ground (arith, ==_iff q.id o.id)) a in ground (arith, rest)
  | inr g ↦ let rest = count-put_origin o' o os d (rw g at f) s h in ground (arith, rest)
]

-- A row that was looked up is trusted.
found-Trusted :
    (o : VerifiedOrigin) (os : List VerifiedOrigin)
    → All Trusted os
    → first (λ r. r.id == o.id) os ≡ some o
    → Trusted o
found-Trusted o os a f = first-All Trusted (λ r. r.id == o.id) os f a

put-IsServed :
    (o' o : VerifiedOrigin) (os : List VerifiedOrigin)
    → IsServed os
    → first (λ r. r.id == o.id) os ≡ some o
    → o'.id ≡ o.id
    → (o'.is_active && not o.is_active) ≡ false
    → Trusted o'
    → IsServed (put_origin o' os)
put-IsServed o' o os s f e h t = record {
  distinct = put_origin-Distinct o' os s.distinct;
  trusted = All-put_origin Trusted o' os s.trusted t;
  one_active = omega (arith, count-put_origin o' o os s.distinct f e h, s.one_active);
}

pub record_origin_verification-IsServed :
    (o : VerifiedOrigin) (verified : Bool) (e : Option Text) (now : Time) (os : List VerifiedOrigin)
    → IsServed os
    → first (λ r. r.id == o.id) os ≡ some o
    → IsServed (record_origin_verification o verified e now os).1
unfolding record_origin_verification
record_origin_verification-IsServed o true e now os s f =
    put-IsServed _ o os s f refl (ground arith) (λ _. refl)
record_origin_verification-IsServed o false e now os s f =
    put-IsServed _ o os s f refl refl (λ h. cc)

pub retire_origin-IsServed :
    (o : VerifiedOrigin) (os : List VerifiedOrigin)
    → IsServed os
    → first (λ r. r.id == o.id) os ≡ some o
    → IsServed (retire_origin o os).1
unfolding retire_origin
retire_origin-IsServed o os s f = put-IsServed _ o os s f refl refl (λ h. cc)

-- The traffic is taken from the others.
abbrev only : VerifiedOrigin → List VerifiedOrigin → List VerifiedOrigin
only o os = update (λ r. not (r.id == o.id) && r.is_active) (λ r. record r { is_active = false }) os

abbrev Only : ℕ → VerifiedOrigin → Type 0
Only i r = r.is_active ≡ true → r.id ≡ i

only-Unlike :
    (r o : VerifiedOrigin) (os : List VerifiedOrigin)
    → All (Unlike r) os
    → All (Unlike r) (only o os)
only-Unlike r o [] a = tt
only-Unlike r o (q ∷ os) (h, a) = elim (Bool-cases (not (q.id == o.id) && q.is_active)) [
  | inl t ↦ rw t (h, only-Unlike r o os a)
  | inr f ↦ rw f (h, only-Unlike r o os a)
]

only-Distinct :
    (o : VerifiedOrigin) (os : List VerifiedOrigin)
    → DistinctOrigins os
    → DistinctOrigins (only o os)
only-Distinct o [] d = tt
only-Distinct o (q ∷ os) (a, d) = elim (Bool-cases (not (q.id == o.id) && q.is_active)) [
  | inl t ↦ rw t (only-Unlike q o os a, only-Distinct o os d)
  | inr f ↦ rw f (only-Unlike q o os a, only-Distinct o os d)
]

only-Trusted :
    (o : VerifiedOrigin) (os : List VerifiedOrigin) → All Trusted os → All Trusted (only o os)
only-Trusted o [] a = tt
only-Trusted o (q ∷ os) (h, a) = elim (Bool-cases (not (q.id == o.id) && q.is_active)) [
  | inl t ↦ rw t ((λ e. cc), only-Trusted o os a)
  | inr f ↦ rw f (h, only-Trusted o os a)
]

only-Only : (o : VerifiedOrigin) (os : List VerifiedOrigin) → All (Only o.id) (only o os)
only-Only o [] = tt
only-Only o (q ∷ os) = elim (Bool-cases (not (q.id == o.id) && q.is_active)) [
  | inl t ↦ rw t ((λ e. cc), only-Only o os)
  | inr f ↦ rw f ((λ e. ground (arith, ==_iff q.id o.id)), only-Only o os)
]

Only-none :
    (r : VerifiedOrigin) (os : List VerifiedOrigin)
    → All (Unlike r) os
    → All (Only r.id) os
    → count is_live_origin os ≡ 0
Only-none r [] a h = refl
Only-none r (q ∷ os) (u, a) (o, h) = elim (Bool-cases q.is_active) [
  | inl t ↦ absurd (u (sym (o t)))
  | inr f ↦ rw f (Only-none r os a h)
]

Only-count :
    (i : ℕ) (os : List VerifiedOrigin)
    → DistinctOrigins os
    → All (Only i) os
    → count is_live_origin os ≤ 1
Only-count i [] d h = omega arith
Only-count i (q ∷ os) (a, d) (o, h) = elim (Bool-cases q.is_active) [
  | inl t ↦
      let none_left = Only-none q os a (subst (λ (j : ℕ). All (Only j) os) (sym (o t)) h) in
      rw t (omega (arith, none_left))
  | inr f ↦ rw f (Only-count i os d h)
]

pub activate_origin-IsServed :
    (o : VerifiedOrigin) (os : List VerifiedOrigin) {out : VerifiedOrigin × List VerifiedOrigin}
    → IsServed os
    → activate_origin o os ≡ ok out
    → IsServed out.1
unfolding activate_origin
activate_origin-IsServed o os {out} s h =
    let active = record o { is_active = true } in
    let e : put_origin active (only o os) ≡ out.1 = ground arith in
    let v : o.status ≡ OriginStatus.verified = ground arith in
    let d = put_origin-Distinct active (only o os) (only-Distinct o os s.distinct) in
    subst IsServed e (record {
      distinct = d;
      trusted = All-put_origin Trusted active (only o os) (only-Trusted o os s.trusted) (λ _. v);
      one_active =
          Only-count o.id _ d
            (All-put_origin (Only o.id) active (only o os) (only-Only o os) (λ _. refl));
    })
