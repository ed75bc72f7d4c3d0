-- ===== src/Tests/Limits.antt =====
-- The theorem on failed requests at a concrete history.
use custom_domain.Common.{
  ℕ, ◌+◌, ◌≡◌, ◌<◌, ◌↔◌, refl, true, none, some, Option, List, [], ◌∷◌, Text, Time, codes, seconds,
  arith, any, text_eq, if◌then◌else◌,
}
use custom_domain.Requests.FailedAuth.{Address, buckets, new_limiter, retry_after}
use custom_domain.Requests.FailedAuthLaws.{recorded, exceeded, retry_after_iff_exceeded}
use custom_domain.Tests.Data.{now}

-- One IPv6 network, and texts that are no address.
abbrev ip_address : Text → Option Address
ip_address t =
    if text_eq t (codes "2001:db8::1")
    then some (Address.v6 (codes "2001:db8::/64") (codes "2001:db8::/48"))
    else none

abbrev factor_of : Text → ℕ
factor_of key = if text_eq key (codes "2001:db8::/48") then 10 else 1

abbrev history : List (Text × Time)
history =
    (codes "2001:db8::1", now + seconds 3)
    ∷ (codes "unix", now + seconds 2)
    ∷ (codes "2001:db8::1", now)
    ∷ []

retry_after_iff_exceeded_example :
    (0
      < retry_after ip_address
          (codes "2001:db8::1")
          (now + seconds 4)
          (recorded ip_address factor_of history (new_limiter 2 (seconds 60) 100)))
    ↔ (any
          (exceeded ip_address factor_of 2 (seconds 60) 100 refl (now + seconds 4) history)
          (buckets ip_address (codes "2001:db8::1"))
        ≡ true)
unfolding buckets
retry_after_iff_exceeded_example =
    retry_after_iff_exceeded ip_address factor_of 2 (seconds 60) 100 refl (now + seconds 4) history
      (codes "2001:db8::1") (omega arith)
      ((refl, (refl, tt)), ((refl, tt), ((refl, (refl, tt)), tt))) (omega arith) (refl, (refl, tt))
