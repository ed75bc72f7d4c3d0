-- ===== src/Requests/Window.antt =====
-- `CredentialRateLimiter` of app/v1/throttle.py over a history of requests.
use custom_domain.Common.{
  ℕ, ◌+◌, ◌==◌, ◌≤◌, ◌<◌, ◌≡◌, refl, ◌∙◌, inl, inr, Bool, false, ◌&&◌, List, [], ◌∷◌, ◌++◌, length,
  count, ltb, Text, text_eq, text_eq_refl, text_eq_iff, Time, arith, Bool-cases, subst, le_trans,
  ◌⊎◌, ◌↔◌, if◌then◌else◌,
}
use custom_domain.Requests.Throttle.{Limiter, get_stamps, put_stamps, recent, wait, take_request}
use custom_domain.Requests.ThrottleLaws.{
  get_stamps-put_stamps, get_stamps-put_stamps_ne, take_request-cases, wait-positive,
}

-- A history of requests, the newest first, none later than an instant or than the one after it.
abbrev pub Ordered : Time → List (Text × Time) → Type 0
Ordered now [] = Unit
Ordered now (request ∷ older) = (request.1 ≤ now) × Ordered request.1 older

abbrev pub with_request :
    Text × Time → ℕ × Limiter → List (Text × Time) → List (Text × Time) × Limiter
with_request request answer accepted =
    ((if answer.0 == 0 then request ∷ accepted else accepted), answer.1)

-- The requests of a history that were accepted, the newest first, and the limiter that they leave.
pub accepted : List (Text × Time) → Limiter → List (Text × Time) × Limiter
accepted [] limiter = ([], limiter)
accepted (request ∷ older) limiter =
    let before = accepted older limiter in
    with_request request (take_request request.0 request.1 before.1) before.0

-- A request of the credential whose window has not passed.
abbrev pub is_counted : Time → Text → Time → Text × Time → Bool
is_counted window key now request = text_eq request.0 key && ltb now (request.1 + window)

recent-recent :
    (window now later : Time) (stamps : List Time)
    → now ≤ later
    → length (recent window later (recent window now stamps)) ≡ length (recent window later stamps)
unfolding recent
recent-recent window now later [] h = refl
recent-recent window now later (t ∷ ts) h = ground (arith, recent-recent window now later ts h)

recent-append :
    (window now later : Time) (stamps : List Time)
    → length (recent window later (stamps ++ now ∷ []))
      ≡ length (recent window later stamps) + (if ltb later (now + window) then 1 else 0)
unfolding recent
recent-append window now later [] = ground arith
recent-append window now later (t ∷ ts) = ground (arith, recent-append window now later ts)

-- The limiter agrees with the requests that were accepted, at every later instant.
abbrev Agrees : Time → ℕ → Time → List (Text × Time) → Limiter → Type 0
Agrees window per_minute now got limiter =
    (limiter.window ≡ window)
    × (limiter.per_minute ≡ per_minute)
    × ((key : Text) (later : Time)
        → now ≤ later
        → length (recent window later (get_stamps key limiter.seen))
          ≡ count (is_counted window key later) got)

count-later :
    (window now later : Time) (key : Text) (got : List (Text × Time))
    → now ≤ later
    → count (is_counted window key later) got ≤ count (is_counted window key now) got
count-later window now later key [] h = omega arith
count-later window now later key (request ∷ got) h =
    ground (arith, count-later window now later key got h)

-- The stamps of a credential as they are written back, and of the others.
put-Agrees :
    (window per_minute now : Time) (request : Text) (stamps : List Time)
    (got got' : List (Text × Time)) (limiter : Limiter)
    → Agrees window per_minute now got limiter
    → ((later : Time)
        → now ≤ later
        → length (recent window later stamps) ≡ count (is_counted window request later) got')
    → ((key : Text) (later : Time)
        → text_eq request key ≡ false
        → count (is_counted window key later) got' ≡ count (is_counted window key later) got)
    → Agrees window per_minute now got'
        (record limiter { seen = put_stamps request stamps limiter.seen })
put-Agrees window per_minute now request stamps got got' limiter (w, p, agrees) own others = (
  w,
  p,
  λ key later h. elim (Bool-cases (text_eq request key)) [
    | inl t ↦
        subst
          (λ (k : Text).
            length (recent window later (get_stamps k (put_stamps request stamps limiter.seen)))
            ≡ count (is_counted window k later) got')
          ((text_eq_iff request key).0 t)
          (rw (get_stamps-put_stamps request stamps limiter.seen) (own later h))
    | inr f ↦
        rw (get_stamps-put_stamps_ne request key stamps limiter.seen f, others key later f)
          (agrees key later h)
  ],
)

one_more :
    (window now later : Time) (request : Text) (got : List (Text × Time)) {n : ℕ}
    → n ≡ count (is_counted window request later) got
    → n + (if ltb later (now + window) then 1 else 0)
      ≡ count (is_counted window request later) ((request, now) ∷ got)
one_more window now later request got h = rw (text_eq_refl request) (ground arith)

request-Agrees :
    (window per_minute now : Time) (request : Text) (got : List (Text × Time)) (limiter : Limiter)
    → 0 < per_minute
    → Agrees window per_minute now got limiter
    → ((key : Text) → count (is_counted window key now) got ≤ per_minute)
    → let after = with_request (request, now) (take_request request now limiter) got in
      Agrees window per_minute now after.0 after.1
      × ((key : Text) → count (is_counted window key now) after.0 ≤ per_minute)
request-Agrees window per_minute now request got limiter on (w, p, agrees) few =
    let stamps = recent limiter.window now (get_stamps request limiter.seen) in
    let kept : (later : Time)
        → now ≤ later
        → length (recent window later stamps) ≡ count (is_counted window request later) got =
      λ later h.
        rw w (recent-recent window now later (get_stamps request limiter.seen) h)
        ∙ agrees request later h in
    let used : length stamps ≡ count (is_counted window request now) got =
      rw w (agrees request now (omega arith)) in
    elim (take_request-cases request now limiter) [
      | inl (off, e) ↦ absurd (omega arith)
      | inr (inl (full, _, e)) ↦
          let told : (wait limiter.window now stamps == 0) ≡ false =
            ground (arith, wait-positive limiter.window now stamps) in
          rw (e, told)
            (
              put-Agrees window per_minute now request stamps got got limiter (w, p, agrees) kept
                  (λ key later f. refl),
              few,
            )
      | inr (inr (free, e)) ↦ rw e (
        put-Agrees window per_minute now request (stamps ++ now ∷ []) got ((request, now) ∷ got)
            limiter (w, p, agrees)
            (λ later h.
              recent-append window now later stamps
              ∙ one_more window now later request got (kept later h))
            (λ key later f. rw f refl),
        λ key. elim (Bool-cases (text_eq request key)) [
          | inr f ↦ rw f (few key)
          | inl t ↦
              let same : count (is_counted window key now) got
                  ≡ count (is_counted window request now) got =
                subst
                  (λ (k : Text).
                    count (is_counted window k now) got ≡ count (is_counted window request now) got)
                  ((text_eq_iff request key).0 t) refl in
              ground arith
        ],
      )
    ]

-- A request leaves the settings as they are.
accepted-settings :
    (history : List (Text × Time)) (limiter : Limiter)
    → ((accepted history limiter).1.per_minute ≡ limiter.per_minute)
unfolding accepted
accepted-settings [] limiter = refl
accepted-settings (request ∷ older) limiter =
    let before = accepted older limiter in
    let same = accepted-settings older limiter in
    elim (take_request-cases request.0 request.1 before.1) [
      | inl (off, e) ↦ rw e same
      | inr (inl (full, on, e)) ↦ rw e same
      | inr (inr (free, e)) ↦ rw e same
    ]

accepted-Agrees :
    (history : List (Text × Time)) (limiter : Limiter) (now : Time)
    → limiter.seen ≡ []
    → 0 < limiter.per_minute
    → Ordered now history
    → let after = accepted history limiter in
      Agrees limiter.window limiter.per_minute now after.0 after.1
      × ((key : Text) → count (is_counted limiter.window key now) after.0 ≤ limiter.per_minute)
unfolding accepted recent
accepted-Agrees [] limiter now empty on o =
    ((refl, refl, λ key later h. rw empty refl), λ key. omega arith)
accepted-Agrees (request ∷ older) limiter now empty on (early, o) =
    let before = accepted older limiter in
    let (agreed, few) = accepted-Agrees older limiter request.1 empty on o in
    let ((w, p, agrees), few') =
      request-Agrees limiter.window limiter.per_minute request.1 request.0 before.0 before.1 on
        agreed few in
    (
      (w, p, λ key later h. agrees key later (le_trans early h)),
      λ key. le_trans (count-later limiter.window request.1 now key _ early) (few' key),
    )

-- From a limiter that has seen nothing, after any requests of any credentials, none later than
-- the next: a request is accepted exactly when the limit is off or fewer than `per_minute`
-- requests of its credential were accepted in the window before it, and with the limit on no
-- credential has more than `per_minute` accepted requests in the window.
pub take_request_lem :
    (history : List (Text × Time)) (limiter : Limiter) (key : Text) (now : Time)
    → limiter.seen ≡ []
    → Ordered now history
    → let after = accepted history limiter in
      let used = count (is_counted limiter.window key now) after.0 in
      (((take_request key now after.1).0 ≡ 0)
        ↔ ((limiter.per_minute ≡ 0) ⊎ (used < limiter.per_minute)))
      × ((limiter.per_minute ≡ 0) ⊎ (used ≤ limiter.per_minute))
take_request_lem history limiter key now empty o =
    let after = accepted history limiter in
    let settings = accepted-settings history limiter in
    elim (take_request-cases key now after.1) [
      | inl (off, e) ↦
          let z : limiter.per_minute ≡ 0 = omega arith in ((λ _. inl z, λ _. rw e refl), inl z)
      | inr (inl (full, on, e)) ↦
          let ((w, p, agrees), few) = accepted-Agrees history limiter now empty (omega arith) o in
          let used : length (recent after.1.window now (get_stamps key after.1.seen))
              ≡ count (is_counted limiter.window key now) after.0 =
            rw w (agrees key now (omega arith)) in
          let stamps = recent after.1.window now (get_stamps key after.1.seen) in
          let told = wait-positive after.1.window now stamps in
          rw e (
            (
              (λ z. absurd (omega arith)),
              (λ c. absurd (elim c [ inl z ↦ omega arith | inr l ↦ omega arith ])),
            ),
            inr (few key),
          )
      | inr (inr (free, e)) ↦
          let ((w, p, agrees), few) = accepted-Agrees history limiter now empty (omega arith) o in
          let used : length (recent after.1.window now (get_stamps key after.1.seen))
              ≡ count (is_counted limiter.window key now) after.0 =
            rw w (agrees key now (omega arith)) in
          rw e (((λ _. inr (omega arith)), λ _. refl), inr (few key))
    ]
