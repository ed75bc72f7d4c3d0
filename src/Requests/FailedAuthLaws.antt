-- ===== src/Requests/FailedAuthLaws.antt =====
-- `retry_after` and `record_failure` of `FailedAuthLimiter`, app/v1/throttle.py, against all failures.
use custom_domain.Common.{
  ℕ, ◌*◌, ◌≤◌, ◌<◌, ◌≡◌, ◌↔◌, refl, sym, ◌∙◌, inl, inr, Bool, true, Option, List, [], ◌∷◌, select,
  length, length-select, any, leb, ltb, min, All, Text, Time, arith, Bool-cases,
}
use custom_domain.Requests.Throttle.{get_stamps, recent}
use custom_domain.Requests.ThrottleLaws.{wait-positive}
use custom_domain.Requests.FailedAuth.{
  Address, FailedAuthLimiter, new_limiter, enabled, record_buckets, bucket_wait, longest_wait,
  buckets, retry_after, record_failure,
}
use custom_domain.Requests.Stamps.{counts_at, counted}
use custom_domain.Requests.Buckets.{
  times, Tracks, logged_with, length-logged_with, record_buckets-config, Until, Weighed,
  record_buckets-Tracks, Tracks-later,
}

bucket_wait-positive :
    (l : FailedAuthLimiter) (now : Time) (key : Text) (factor : ℕ)
    → (0 < bucket_wait l now (key, factor))
      ↔ (leb (l.max_failures * factor) (counted l.window now (get_stamps key l.failures)) ≡ true)
unfolding bucket_wait recent
bucket_wait-positive l now key factor =
    let stamps = get_stamps key l.failures in
    rw (← length-select (counts_at l.window now) stamps)
      (elim (Bool-cases
        (leb (l.max_failures * factor) (length (select (counts_at l.window now) stamps)))) [
          | inl t ↦ rw t (
            (λ _. refl),
            λ _. omega (arith, wait-positive l.window now (select (counts_at l.window now) stamps)),
          )
          | inr f ↦ rw f ((λ z. absurd (omega arith)), λ e. absurd (ground arith))
        ])

module _ (ip_address : Text → Option Address) (factor_of : Text → ℕ) where
  record_failure-on :
      (address : Text) (at : Time) (l : FailedAuthLimiter)
      → enabled l ≡ true
      → record_failure ip_address address at l ≡ record_buckets at (buckets ip_address address) l
  unfolding record_failure
  record_failure-on address at l h = rw h refl

  -- The buckets that failed, each with its instant.
  abbrev pub events : List (Text × Time) → List (Text × Time)
  events [] = []
  events ((address, at) ∷ history) = logged_with at (buckets ip_address address) (events history)

  -- The limiter after failed requests, the last one first.
  abbrev pub recorded : List (Text × Time) → FailedAuthLimiter → FailedAuthLimiter
  recorded [] l = l
  recorded ((address, at) ∷ history) l = record_failure ip_address address at (recorded history l)

  abbrev pub Known : List (Text × Time) → Type 0
  Known history = All (λ e. Weighed factor_of (buckets ip_address e.0)) history

  module _ (max_failures : ℕ) (window : Time) (max_tracked : ℕ)
      (on : ltb 0 max_failures ≡ true) where
    recorded-config :
        (history : List (Text × Time))
        → let l = recorded history (new_limiter max_failures window max_tracked) in
          (l.max_failures ≡ max_failures) × (l.window ≡ window) × (l.max_tracked ≡ max_tracked)
    recorded-config [] = (refl, refl, refl)
    recorded-config ((address, at) ∷ history) =
        let l = recorded history (new_limiter max_failures window max_tracked) in
        let (m, w, k) = recorded-config history in
        let (m', w', k') = record_buckets-config at (buckets ip_address address) l in
        rw (record_failure-on address at l (rw m on)) (rw (m', w', k') (m, w, k))

    recorded-Tracks :
        (now : Time) (history : List (Text × Time))
        → Until now history
        → Known history
        → length (events history) ≤ max_tracked
        → Tracks factor_of
            (events history)
            now
            (recorded history (new_limiter max_failures window max_tracked))
    recorded-Tracks now [] u w room = record {
      room = omega arith;
      kept = λ key. (tt, tt);
      counts = λ key later le. omega arith;
    }
    recorded-Tracks now ((address, at) ∷ history) (le, u) (b, w) room =
        let l = recorded history (new_limiter max_failures window max_tracked) in
        let (m, _, k) = recorded-config history in
        let bs = buckets ip_address address in
        let small : length (events history) ≤ max_tracked =
          omega (arith, length-logged_with at bs (events history)) in
        let t = recorded-Tracks at history u w small in
        rw (record_failure-on address at l (rw m on)) (
          Tracks-later factor_of (events ((address, at) ∷ history)) at now (record_buckets at bs l)
            le (record_buckets-Tracks factor_of (events history) at bs l b (rw k room) t))

    -- The test of one bucket, on all its failures.
    abbrev pub exceeded : Time → List (Text × Time) → Text × ℕ → Bool
    exceeded now history b =
        leb (max_failures * b.1) (counted window now (times b.0 (events history)))

    bucket_wait-exceeded :
        (now : Time) (history : List (Text × Time)) (key : Text)
        → Until now history
        → Known history
        → length (events history) ≤ max_tracked
        → (0
            < bucket_wait
                (recorded history (new_limiter max_failures window max_tracked))
                now
                (key, factor_of key))
          ↔ (exceeded now history (key, factor_of key) ≡ true)
    bucket_wait-exceeded now history key u w room =
        let l = recorded history (new_limiter max_failures window max_tracked) in
        let (m, v, _) = recorded-config history in
        let t = (recorded-Tracks now history u w room).counts key now (omega arith) in
        let kept = counted window now (get_stamps key l.failures) in
        let all = counted window now (times key (events history)) in
        let limit = max_failures * factor_of key in
        let e : kept ≡ min limit all = rw (m, v) at t in
        let (to, from) = bucket_wait-positive l now key (factor_of key) in
        let same : leb (l.max_failures * factor_of key)
              (counted l.window now (get_stamps key l.failures))
            ≡ leb limit kept =
          rw (m, v) refl in
        (
          (λ z. let h : leb limit kept ≡ true = sym same ∙ to z in ground (arith, e)),
          λ h. from (same ∙ ground (arith, e)),
        )

    longest_wait-exceeded :
        (now : Time) (history : List (Text × Time)) (bs : List (Text × ℕ))
        → Until now history
        → Known history
        → length (events history) ≤ max_tracked
        → Weighed factor_of bs
        → (0 < longest_wait (recorded history (new_limiter max_failures window max_tracked)) now bs)
          ↔ (any (exceeded now history) bs ≡ true)
    unfolding longest_wait
    longest_wait-exceeded now history [] u w room ws =
        ((λ z. absurd (omega arith)), λ e. absurd (ground arith))
    longest_wait-exceeded now history ((key, factor) ∷ bs) u w room (e, ws) =
        let one = bucket_wait-exceeded now history key u w room in
        let rest = longest_wait-exceeded now history bs u w room ws in
        rw e (ground (arith, one, rest))

    -- After failed requests in order of time, none after now, on a new limiter that is on, an address has to wait exactly when
    -- one of its buckets had, of all its failures, as many in the window as `max_failures` times the factor of the bucket. It
    -- is assumed that a bucket has one factor wherever it occurs, and that the failures hit at most `max_tracked` buckets,
    -- each counted as often as it was hit.
    pub retry_after_iff_exceeded :
        (now : Time) (history : List (Text × Time)) (address : Text)
        → Until now history
        → Known history
        → length (events history) ≤ max_tracked
        → Weighed factor_of (buckets ip_address address)
        → (0
            < retry_after ip_address address now
                (recorded history (new_limiter max_failures window max_tracked)))
          ↔ (any (exceeded now history) (buckets ip_address address) ≡ true)
    unfolding retry_after
    retry_after_iff_exceeded now history address u w room ws =
        let live : enabled (recorded history (new_limiter max_failures window max_tracked)) ≡ true =
          rw ((recorded-config history).0) on in
        rw live (longest_wait-exceeded now history (buckets ip_address address) u w room ws)
