-- ===== src/Requests/FailedAuth.antt =====
-- `FailedAuthLimiter` of app/v1/throttle.py. The parser of IP addresses and the texts of their networks are a parameter; the
-- monotonic clock is an exact instant, and the lock serialises the calls.
use custom_domain.Common.{
  ℕ, ◌-◌, ◌*◌, Bool, Option, none, some, List, [], ◌∷◌, ◌++◌, length, drop, ltb, leb, max, Text,
  text_eq, Time, if◌then◌else◌,
}
use custom_domain.Requests.Throttle.{get_stamps, recent, wait}

-- What `ipaddress.ip_address` makes of a text: the canonical text of an IPv4 address, or the texts of the /64 and the /48 of an
-- IPv6 address.
pub data Address : Type 0 where
  v4 : Text → Address
  v6 : Text → Text → Address

pub record FailedAuthLimiter : Type 0 where
  pub max_failures : ℕ
  pub window : Time
  pub max_tracked : ℕ
  pub failures : List (Text × List Time)

abbrev pub prefix48_factor : ℕ
prefix48_factor = 10

abbrev pub default_failures_per_minute : ℕ
default_failures_per_minute = 30

abbrev pub enabled : FailedAuthLimiter → Bool
enabled l = ltb 0 l.max_failures

abbrev pub parsed_buckets : Text → Option Address → List (Text × ℕ)
parsed_buckets address none = (address, 1) ∷ []
parsed_buckets address (some (v4 text)) = (text, 1) ∷ []
parsed_buckets address (some (v6 net64 net48)) = (net64, 1) ∷ (net48, prefix48_factor) ∷ []

-- `self._failures.pop(key, ())`, the dictionary that is left.
unfoldable pub without : Text → List (Text × List Time) → List (Text × List Time)
without key [] = []
without key (entry ∷ rest) =
    if text_eq entry.0 key then without key rest else entry ∷ without key rest

-- `stamps[-limit:]`, for a limit that is not 0.
abbrev pub last : ℕ → List Time → List Time
last limit stamps = drop (length stamps - limit) stamps

-- The stamps of a bucket with one failure more.
unfoldable pub push : ℕ → Time → Time → List Time → List Time
push limit window now stamps = last limit (recent window now stamps ++ now ∷ [])

-- The buckets that failed least recently leave first.
unfoldable pub evict : ℕ → List (Text × List Time) → List (Text × List Time)
evict max_tracked failures = drop (length failures - max_tracked) failures

-- One round of the loop of `record_failure`.
unfoldable pub record_bucket : Time → Text × ℕ → FailedAuthLimiter → FailedAuthLimiter
record_bucket now (key, factor) l =
    let stamps = push (l.max_failures * factor) l.window now (get_stamps key l.failures) in
    record l { failures = evict l.max_tracked (without key l.failures ++ (key, stamps) ∷ []) }

unfoldable pub record_buckets : Time → List (Text × ℕ) → FailedAuthLimiter → FailedAuthLimiter
record_buckets now [] l = l
record_buckets now (b ∷ bs) l = record_buckets now bs (record_bucket now b l)

-- The loop of `retry_after`.
unfoldable pub bucket_wait : FailedAuthLimiter → Time → Text × ℕ → ℕ
bucket_wait l now (key, factor) =
    let stamps = recent l.window now (get_stamps key l.failures) in
    if leb (l.max_failures * factor) (length stamps) then wait l.window now stamps else 0

unfoldable pub longest_wait : FailedAuthLimiter → Time → List (Text × ℕ) → ℕ
longest_wait l now [] = 0
longest_wait l now (b ∷ bs) = max (bucket_wait l now b) (longest_wait l now bs)

module _ (ip_address : Text → Option Address) where
  unfoldable pub buckets : Text → List (Text × ℕ)
  buckets address = parsed_buckets address (ip_address address)

  unfoldable pub retry_after : Text → Time → FailedAuthLimiter → ℕ
  retry_after address now l = if enabled l then longest_wait l now (buckets address) else 0

  unfoldable pub record_failure : Text → Time → FailedAuthLimiter → FailedAuthLimiter
  record_failure address now l = if enabled l then record_buckets now (buckets address) l else l

-- `FailedAuthLimiter(max_failures, window, max_tracked)`
abbrev pub new_limiter : ℕ → Time → ℕ → FailedAuthLimiter
new_limiter max_failures window max_tracked = record {
  max_failures = max_failures;
  window = window;
  max_tracked = max_tracked;
  failures = [];
}
