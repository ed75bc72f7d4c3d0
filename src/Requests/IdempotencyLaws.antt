-- ===== src/Requests/IdempotencyLaws.antt =====
-- What a retry of a request meets.
use custom_domain.Common.{
  ℕ, ◌+◌, ◌<◌, ◌≡◌, refl, sym, inl, inr, Bool, true, false, Option, none, some, List, [], ◌∷◌, ◌++◌,
  first, update, leb, Text, text_eq_iff, Time, hours, arith, Bool-cases, subst,
}
use custom_domain.Errors.{ok}
use custom_domain.Model.{Application}
use custom_domain.Requests.Idempotency.{
  IdempotencyKey, same_key, fresh_key, Begun, reclaim, is_invalid_key, register_key, begin,
  complete,
}

same_key_refl :
    (application_id : ℕ) (key : Text) (r : IdempotencyKey)
    → r.application_id ≡ application_id
    → r.key ≡ key
    → same_key application_id key r ≡ true
same_key_refl application_id key r a k = ground (arith, text_eq_iff r.key key)

first-append :
    (p : IdempotencyKey → Bool) (rows : List IdempotencyKey) (r : IdempotencyKey)
    → first p rows ≡ none
    → p r ≡ true
    → first p (rows ++ r ∷ []) ≡ some r
first-append p [] r n h = rw h refl
first-append p (q ∷ rows) r n h = ground (arith, first-append p rows r)

first-update :
    (p : IdempotencyKey → Bool) (rows : List IdempotencyKey) (f : IdempotencyKey → IdempotencyKey)
    {q : IdempotencyKey}
    → first p rows ≡ some q
    → ((r : IdempotencyKey) → p r ≡ true → p (f r) ≡ true)
    → first p (update p f rows) ≡ some (f q)
first-update p [] f n h = cc
first-update p (q ∷ rows) f {q = r} n h = elim (Bool-cases (p q)) [
  | inl t ↦ let same : some q ≡ some r = rw t at n in ground (arith, h q t)
  | inr g ↦ let later = first-update p rows f (rw g at n) h in ground arith
]

register_key-created :
    (added : IdempotencyKey) (found : Option IdempotencyKey) (now : Time)
    (rows : List IdempotencyKey)
    → first (same_key added.application_id added.key) rows ≡ found
    → (register_key added found now rows).created ≡ true
    → (first (same_key added.application_id added.key) (register_key added found now rows).rows
        ≡ some added)
      × ((register_key added found now rows).key_record ≡ added)
unfolding register_key reclaim
register_key-created added none now rows f c = (
  first-append _ rows added f (same_key_refl added.application_id added.key added refl refl),
  refl,
)
register_key-created added (some e) now rows f c = elim (Bool-cases (leb e.expires_at now)) [
  | inl t ↦ rw t (
    first-update (same_key added.application_id added.key) rows (λ _. added) f
        (λ _ _. same_key_refl added.application_id added.key added refl refl),
    refl,
  )
  | inr g ↦ absurd (let z = rw g at c in cc)
]

register_key-kept :
    (added e : IdempotencyKey) (now : Time) (rows : List IdempotencyKey)
    → now < e.expires_at
    → register_key added (some e) now rows ≡ record { key_record = e; created = false; rows = rows }
unfolding register_key reclaim
register_key-kept added e now rows h =
    let valid : leb e.expires_at now ≡ false = ground arith in rw valid refl

begin_ok :
    (a : Application) (key hash : Text) (now : Time) (rows : List IdempotencyKey) {b : Begun}
    → begin a key hash now rows ≡ ok b
    → (is_invalid_key key ≡ false)
      × (register_key (fresh_key a.id key hash now) (first (same_key a.id key) rows) now rows ≡ b)
unfolding begin
begin_ok a key hash now rows h = elim (Bool-cases (is_invalid_key key)) [
  | inl t ↦ absurd (let z = rw (t, begin) at h in cc)
  | inr f ↦ let z = rw (f, begin) at h in (f, ground arith)
]

complete-stored :
    (added r : IdempotencyKey) (domain_id : ℕ) (rows : List IdempotencyKey)
    → r ≡ added
    → first (same_key added.application_id added.key) rows ≡ some added
    → first (same_key added.application_id added.key) (complete r domain_id rows)
      ≡ some (record added { domain_id = some domain_id })
unfolding complete
complete-stored added r domain_id rows same f =
    let p = same_key added.application_id added.key in
    subst
      (λ (x : IdempotencyKey).
        first p (complete x domain_id rows) ≡ some (record added { domain_id = some domain_id }))
      (sym same) (first-update p rows (λ q. record q { domain_id = some domain_id }) f (λ q t. t))

-- After a key was registered for a request and completed with a domain, a retry under the key
-- within 24 hours of the registration, with whatever hash, is not registered again but meets
-- the record of that domain and of the hash of the first request.
pub retry_replays :
    (a : Application) (key hash other : Text) (domain_id : ℕ) (now later : Time)
    (rows : List IdempotencyKey) {b : Begun}
    → begin a key hash now rows ≡ ok b
    → b.created ≡ true
    → later < now + hours 24
    → (r : Begun) × (begin a key other later (complete b.key_record domain_id b.rows) ≡ ok r)
      × (r.created ≡ false)
      × (r.key_record ≡ record (fresh_key a.id key hash now) { domain_id = some domain_id })
unfolding begin complete
retry_replays a key hash other domain_id now later rows {b} h c l =
    let added = fresh_key a.id key hash now in
    let (valid, same) = begin_ok a key hash now rows h in
    let c' = subst (λ (x : Begun). x.created ≡ true) (sym same) c in
    let (stored, mine) =
      register_key-created added (first (same_key a.id key) rows) now rows refl c' in
    let done = record added { domain_id = some domain_id } in
    let rows' = complete b.key_record domain_id b.rows in
    let there : first (same_key a.id key) rows' ≡ some done =
      subst
        (λ (x : Begun).
          first (same_key a.id key) (complete x.key_record domain_id x.rows) ≡ some done)
        same (complete-stored added _ domain_id _ mine stored) in
    let kept = register_key-kept (fresh_key a.id key other later) done later rows' l in
    (
      register_key (fresh_key a.id key other later) (first (same_key a.id key) rows') later rows',
      rw valid refl,
      rw there (rw kept refl),
      rw there (rw kept refl),
    )
