-- ===== src/Requests/Buckets.antt =====
-- The buckets of `FailedAuthLimiter`, app/v1/throttle.py, against a list of all failures.
use custom_domain.Common.{
  ℕ, suc, ◌+◌, ◌-◌, ◌*◌, ◌≤◌, ◌<◌, ◌≡◌, refl, sym, ap, subst, inl, inr, false, List, [], ◌∷◌, ◌++◌,
  length, length-append, min, All, Text, text_eq, text_eq_refl, text_eq_iff, Time, if◌then◌else◌,
  arith, Bool-cases,
}
use custom_domain.Requests.Throttle.{get_stamps}
use custom_domain.Requests.FailedAuth.{
  FailedAuthLimiter, without, push, evict, record_bucket, record_buckets,
}
use custom_domain.Requests.Stamps.{
  counted, counted-one, counted-push, Kept, Kept-push, Kept-recent, Kept-later,
}

get_stamps-append :
    (other key : Text) (stamps : List Time) (failures : List (Text × List Time))
    → text_eq key other ≡ false
    → get_stamps other (failures ++ (key, stamps) ∷ []) ≡ get_stamps other failures
get_stamps-append other key stamps [] h = rw h refl
get_stamps-append other key stamps (e ∷ es) h =
    ground (arith, get_stamps-append other key stamps es h)

get_stamps-without :
    (key : Text) (stamps : List Time) (failures : List (Text × List Time))
    → get_stamps key (without key failures ++ (key, stamps) ∷ []) ≡ stamps
unfolding without
get_stamps-without key stamps [] = rw (text_eq_refl key) refl
get_stamps-without key stamps (e ∷ es) = elim (Bool-cases (text_eq e.0 key)) [
  | inl t ↦ rw t (get_stamps-without key stamps es)
  | inr f ↦ rw (f, f) (get_stamps-without key stamps es)
]

get_stamps-without_ne :
    (key other : Text) (failures : List (Text × List Time))
    → text_eq key other ≡ false
    → get_stamps other (without key failures) ≡ get_stamps other failures
unfolding without
get_stamps-without_ne key other [] h = refl
get_stamps-without_ne key other (e ∷ es) h = ground (
  arith,
  text_eq_iff e.0 key,
  text_eq_iff e.0 other,
  text_eq_iff key other,
  get_stamps-without_ne key other es h,
)

length-without :
    (key : Text) (failures : List (Text × List Time))
    → length (without key failures) ≤ length failures
unfolding without
length-without key [] = omega arith
length-without key (e ∷ es) = ground (arith, length-without key es)

-- With room for one bucket more nothing is evicted.
evict-none :
    (max_tracked : ℕ) (failures : List (Text × List Time))
    → length failures ≤ max_tracked
    → evict max_tracked failures ≡ failures
unfolding evict
evict-none max_tracked failures h =
    let e : length failures - max_tracked ≡ 0 = omega arith in rw e refl

-- The instants of a bucket in a list of all failures.
abbrev pub times : Text → List (Text × Time) → List Time
times key [] = []
times key (e ∷ es) = if text_eq e.0 key then e.1 ∷ times key es else times key es

times-same :
    (key : Text) (now : Time) (logged : List (Text × Time))
    → times key ((key, now) ∷ logged) ≡ now ∷ times key logged
times-same key now logged = rw (text_eq_refl key) refl

-- What a limiter knows of all failures of the buckets up to `now`, the last one first.
pub record Tracks (factor_of : Text → ℕ) (logged : List (Text × Time)) (now : Time)
    (l : FailedAuthLimiter) : Type 0 where
  pub room : length l.failures ≤ length logged
  pub kept : (key : Text) → Kept now (get_stamps key l.failures)
  pub counts :
      (key : Text) (later : Time)
      → now ≤ later
      → counted l.window later (get_stamps key l.failures)
        ≡ min (l.max_failures * factor_of key) (counted l.window later (times key logged))

module _ (factor_of : Text → ℕ) where
  record_bucket-Tracks :
      (logged : List (Text × Time)) (before now : Time) (key : Text) (l : FailedAuthLimiter)
      → before ≤ now
      → length logged < l.max_tracked
      → Tracks factor_of logged before l
      → Tracks factor_of ((key, now) ∷ logged) now (record_bucket now (key, factor_of key) l)
  unfolding record_bucket
  record_bucket-Tracks logged before now key l h room t =
      let old = get_stamps key l.failures in
      let limit = l.max_failures * factor_of key in
      let stamps = push limit l.window now old in
      let moved = without key l.failures ++ (key, stamps) ∷ [] in
      let size : length moved ≤ suc (length logged) = omega (
        arith,
        length-append (without key l.failures) ((key, stamps) ∷ []),
        length-without key l.failures,
        t.room,
      ) in
      let all_kept : evict l.max_tracked moved ≡ moved =
        evict-none l.max_tracked moved (omega arith) in
      let other_ne : (other : Text)
          → text_eq key other ≡ false
          → get_stamps other moved ≡ get_stamps other l.failures =
        λ other f.
          rw (get_stamps-append other key stamps (without key l.failures) f)
            (get_stamps-without_ne key other l.failures f) in
      rw all_kept (record {
        room = size;
        kept = λ other. elim (Bool-cases (text_eq key other)) [
          | inl e ↦
              subst (λ (k : Text). Kept now (get_stamps k moved)) ((text_eq_iff key other).0 e)
                (rw (get_stamps-without key stamps l.failures)
                  (Kept-push l.window limit before now old h (t.kept key)))
          | inr f ↦ rw (other_ne other f) (
            (t.kept other).0,
            Kept-later before now (get_stamps other l.failures) h (t.kept other).1,
          )
        ];
        counts = λ other later le. elim (Bool-cases (text_eq key other)) [
          | inl e ↦
              subst
                (λ (k : Text).
                  counted l.window later (get_stamps k moved)
                  ≡ min (l.max_failures * factor_of k)
                      (counted l.window later (times k ((key, now) ∷ logged))))
                ((text_eq_iff key other).0 e)
                (rw (get_stamps-without key stamps l.failures, times-same key now logged)
                  (omega (
                    arith,
                    counted-one l.window later now (times key logged),
                    counted-push l.window limit now later old le
                        (Kept-recent l.window before now old h (t.kept key)),
                    t.counts key later (omega arith),
                  )))
          | inr f ↦ rw (other_ne other f, f) (t.counts other later (omega arith))
        ];
      })

-- The buckets of one failure, each with its instant, before those of the earlier failures.
abbrev pub logged_with : Time → List (Text × ℕ) → List (Text × Time) → List (Text × Time)
logged_with now [] logged = logged
logged_with now (b ∷ bs) logged = logged_with now bs ((b.0, now) ∷ logged)

pub length-logged_with :
    (now : Time) (bs : List (Text × ℕ)) (logged : List (Text × Time))
    → length (logged_with now bs logged) ≡ length bs + length logged
length-logged_with now [] logged = omega arith
length-logged_with now (b ∷ bs) logged =
    omega (arith, length-logged_with now bs ((b.0, now) ∷ logged))

pub record_buckets-config :
    (now : Time) (bs : List (Text × ℕ)) (l : FailedAuthLimiter)
    → ((record_buckets now bs l).max_failures ≡ l.max_failures)
      × ((record_buckets now bs l).window ≡ l.window)
      × ((record_buckets now bs l).max_tracked ≡ l.max_tracked)
unfolding record_buckets record_bucket
record_buckets-config now [] l = (refl, refl, refl)
record_buckets-config now (b ∷ bs) l = record_buckets-config now bs (record_bucket now b l)

-- Every failed request has one instant, and none is before the failures that went before it; the last one comes first.
abbrev pub Until : Time → List (Text × Time) → Type 0
Until now [] = Unit
Until now (e ∷ history) = (e.1 ≤ now) × Until e.1 history

module _ (factor_of : Text → ℕ) where
  abbrev pub Weighed : List (Text × ℕ) → Type 0
  Weighed bs = All (λ b. b.1 ≡ factor_of b.0) bs

  pub record_buckets-Tracks :
      (logged : List (Text × Time)) (now : Time) (bs : List (Text × ℕ)) (l : FailedAuthLimiter)
      → Weighed bs
      → length (logged_with now bs logged) ≤ l.max_tracked
      → Tracks factor_of logged now l
      → Tracks factor_of (logged_with now bs logged) now (record_buckets now bs l)
  unfolding record_buckets
  record_buckets-Tracks logged now [] l w room t = t
  record_buckets-Tracks logged now ((key, factor) ∷ bs) l (e, w) room t =
      let small : length logged < l.max_tracked =
        omega (arith, length-logged_with now bs ((key, now) ∷ logged)) in
      let one = record_bucket-Tracks factor_of logged now now key l (omega arith) small t in
      let same : record_bucket now (key, factor) l ≡ record_bucket now (key, factor_of key) l =
        ap (λ f. record_bucket now (key, f) l) e in
      let config = record_buckets-config now ((key, factor_of key) ∷ []) l in
      rw same (
        record_buckets-Tracks ((key, now) ∷ logged) now bs
          (record_bucket now (key, factor_of key) l) w
          (subst (λ n. length (logged_with now bs ((key, now) ∷ logged)) ≤ n) (sym config.2) room)
          one)

  pub Tracks-later :
      (logged : List (Text × Time)) (before now : Time) (l : FailedAuthLimiter)
      → before ≤ now
      → Tracks factor_of logged before l
      → Tracks factor_of logged now l
  Tracks-later logged before now l h t = record {
    room = t.room;
    kept =
        λ key. ((t.kept key).0, Kept-later before now (get_stamps key l.failures) h (t.kept key).1);
    counts = λ key later le. t.counts key later (omega arith);
  }
