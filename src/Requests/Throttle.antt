-- ===== src/Requests/Throttle.antt =====
-- `CredentialRateLimiter` of app/v1/throttle.py. The monotonic clock is an exact instant; the lock serialises the calls.
use custom_domain.Common.{
  ℕ, ◌+◌, ◌-◌, ◌/◌, not, List, [], ◌∷◌, ◌++◌, select, length, ltb, leb, Text, text_eq, Time,
  seconds, if◌then◌else◌,
}

pub record Limiter : Type 0 where
  pub per_minute : ℕ
  pub window : Time
  pub seen : List (Text × List Time)

abbrev pub default_window : Time
default_window = seconds 60

-- `self._seen.get(credential_id, ())`
abbrev pub get_stamps : Text → List (Text × List Time) → List Time
get_stamps key [] = []
get_stamps key (entry ∷ rest) = if text_eq entry.0 key then entry.1 else get_stamps key rest

-- `self._seen[credential_id] = stamps`
abbrev pub put_stamps : Text → List Time → List (Text × List Time) → List (Text × List Time)
put_stamps key stamps [] = (key, stamps) ∷ []
put_stamps key stamps (entry ∷ rest) =
    if text_eq entry.0 key then (key, stamps) ∷ rest else entry ∷ put_stamps key stamps rest

-- The stamps for which `now - t < window`.
unfoldable pub recent : Time → Time → List Time → List Time
recent window now stamps = select (λ t. ltb now (t + window)) stamps

-- `int(stamps[0] + window - now) + 1`
unfoldable pub wait : Time → Time → List Time → ℕ
wait window now [] = 1
wait window now (t ∷ ts) = (t + window - now) / 1000000 + 1

-- The seconds to wait, 0 if the request may go ahead.
unfoldable pub take_request : Text → Time → Limiter → ℕ × Limiter
take_request key now limiter =
    let stamps = recent limiter.window now (get_stamps key limiter.seen) in
    if not (ltb 0 limiter.per_minute)
    then (0, limiter)
    else if leb limiter.per_minute (length stamps)
    then (
      wait limiter.window now stamps,
      record limiter { seen = put_stamps key stamps limiter.seen },
    )
    else (0, record limiter { seen = put_stamps key (stamps ++ now ∷ []) limiter.seen })
