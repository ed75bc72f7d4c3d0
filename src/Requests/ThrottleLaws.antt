-- ===== src/Requests/ThrottleLaws.antt =====
-- The budget of a credential, and the waiting time it is told.
use custom_domain.Common.{
  suc, ◌+◌, ◌≤◌, ◌≡◌, refl, inl, inr, false, List, [], ◌∷◌, ◌++◌, length, length-append, ltb, leb,
  Text, text_eq, text_eq_refl, text_eq_iff, Time, seconds, arith, Bool-cases, subst, le_trans, ◌⊎◌,
  ◌<◌,
}
use custom_domain.Requests.Throttle.{Limiter, get_stamps, put_stamps, recent, wait, take_request}

pub get_stamps-put_stamps :
    (key : Text) (stamps : List Time) (seen : List (Text × List Time))
    → get_stamps key (put_stamps key stamps seen) ≡ stamps
get_stamps-put_stamps key stamps [] = rw (text_eq_refl key) refl
get_stamps-put_stamps key stamps (entry ∷ rest) = elim (Bool-cases (text_eq entry.0 key)) [
  | inl t ↦ rw (t, text_eq_refl key) refl
  | inr f ↦ rw (f, f) (get_stamps-put_stamps key stamps rest)
]

pub get_stamps-put_stamps_ne :
    (key other : Text) (stamps : List Time) (seen : List (Text × List Time))
    → text_eq key other ≡ false
    → get_stamps other (put_stamps key stamps seen) ≡ get_stamps other seen
get_stamps-put_stamps_ne key other stamps [] h = rw h refl
get_stamps-put_stamps_ne key other stamps (entry ∷ rest) h = ground (
  arith,
  text_eq_iff entry.0 key,
  text_eq_iff entry.0 other,
  text_eq_iff key other,
  get_stamps-put_stamps_ne key other stamps rest h,
)

recent-length :
    (window now : Time) (stamps : List Time) → length (recent window now stamps) ≤ length stamps
unfolding recent
recent-length window now [] = omega arith
recent-length window now (t ∷ ts) = ground (arith, recent-length window now ts)

-- The first of the stamps is past its window after the wait, so fewer are left then.
waited :
    (window now later : Time) (stamps : List Time)
    → 1 ≤ length stamps
    → now + seconds (wait window now stamps) ≤ later
    → suc (length (recent window later stamps)) ≤ length stamps
unfolding recent wait
waited window now later [] n h = absurd (omega arith)
waited window now later (t ∷ ts) n h =
    let past : ltb later (t + window) ≡ false = ground arith in
    rw past (omega (arith, recent-length window later ts))

-- No credential has more stamps than its budget.
pub record IsBounded (limiter : Limiter) : Type 0 where
  pub bounded : (key : Text) → length (get_stamps key limiter.seen) ≤ limiter.per_minute

put-IsBounded :
    (limiter : Limiter) (key : Text) (stamps : List Time)
    → IsBounded limiter
    → length stamps ≤ limiter.per_minute
    → IsBounded (record limiter { seen = put_stamps key stamps limiter.seen })
put-IsBounded limiter key stamps b h = record {
  bounded = λ other. elim (Bool-cases (text_eq key other)) [
    | inl t ↦
        subst
          (λ (k : Text).
            length (get_stamps k (put_stamps key stamps limiter.seen)) ≤ limiter.per_minute)
          ((text_eq_iff key other).0 t) (rw (get_stamps-put_stamps key stamps limiter.seen) h)
    | inr f ↦ rw (get_stamps-put_stamps_ne key other stamps limiter.seen f) (b.bounded other)
  ];
}

pub wait-positive : (window now : Time) (stamps : List Time) → 1 ≤ wait window now stamps
unfolding wait
wait-positive window now [] = omega arith
wait-positive window now (t ∷ ts) = omega arith

-- The three branches.
pub take_request-cases :
    (key : Text) (now : Time) (limiter : Limiter)
    → let stamps = recent limiter.window now (get_stamps key limiter.seen) in
      ((limiter.per_minute ≡ 0) × (take_request key now limiter ≡ (0, limiter)))
      ⊎ (((limiter.per_minute ≤ length stamps)
            × (0 < limiter.per_minute)
            × (take_request key now limiter ≡ (
              wait limiter.window now stamps,
              record limiter { seen = put_stamps key stamps limiter.seen },
            )))
          ⊎ ((length stamps < limiter.per_minute)
              × (take_request key now limiter ≡ (
                0,
                record limiter { seen = put_stamps key (stamps ++ now ∷ []) limiter.seen },
              ))))
unfolding take_request
take_request-cases key now limiter =
    let stamps = recent limiter.window now (get_stamps key limiter.seen) in
    elim (Bool-cases (ltb 0 limiter.per_minute)) [
      | inr off ↦ inl (ground arith, rw off refl)
      | inl on ↦ elim (Bool-cases (leb limiter.per_minute (length stamps))) [
        | inl full ↦ inr (inl (ground arith, ground arith, rw (on, full) refl))
        | inr free ↦ inr (inr (ground arith, rw (on, free) refl))
      ]
    ]

accepted_when_free :
    (key : Text) (now : Time) (limiter : Limiter)
    → length (recent limiter.window now (get_stamps key limiter.seen)) < limiter.per_minute
    → (take_request key now limiter).0 ≡ 0
accepted_when_free key now limiter h = elim (take_request-cases key now limiter) [
  | inl (off, e) ↦ rw e refl
  | inr (inl (full, on, e)) ↦ absurd (omega arith)
  | inr (inr (free, e)) ↦ rw e refl
]

pub take_request-IsBounded :
    (key : Text) (now : Time) (limiter : Limiter)
    → IsBounded limiter
    → IsBounded (take_request key now limiter).1
take_request-IsBounded key now limiter b = elim (take_request-cases key now limiter) [
  | inl (off, e) ↦ rw e b
  | inr (inl (full, on, e)) ↦ rw e (
      put-IsBounded limiter key _ b
        (le_trans (recent-length limiter.window now (get_stamps key limiter.seen)) (b.bounded key)))
  | inr (inr (free, e)) ↦ rw e (
      put-IsBounded limiter key _ b (
        omega (
          arith,
          length-append (recent limiter.window now (get_stamps key limiter.seen)) (now ∷ []),
        )))
]

-- If no credential has more stamps than its budget, a refused credential that waits as long as
-- it was told and sends nothing in between is accepted.
pub waited_is_accepted :
    (key : Text) (now later : Time) (limiter : Limiter)
    → IsBounded limiter
    → 0 < (take_request key now limiter).0
    → now + seconds (take_request key now limiter).0 ≤ later
    → (take_request key later (take_request key now limiter).1).0 ≡ 0
waited_is_accepted key now later limiter b refused h = elim (take_request-cases key now limiter) [
  | inl (off, e) ↦ absurd (let z = rw e at refused in omega arith)
  | inr (inl (full, on, e)) ↦
      let stamps = recent limiter.window now (get_stamps key limiter.seen) in
      let few = waited limiter.window now later stamps (omega arith) (rw e at h) in
      let held =
        le_trans (recent-length limiter.window now (get_stamps key limiter.seen)) (b.bounded key) in
      rw e (
        accepted_when_free key later (record limiter { seen = put_stamps key stamps limiter.seen })
          (rw (get_stamps-put_stamps key stamps limiter.seen) (omega arith)))
  | inr (inr (free, e)) ↦ absurd (let z = rw e at refused in omega arith)
]
