-- ===== src/Errors.antt =====
-- app/services/errors.py: the errors of the service layer, and the result of an operation that may
-- raise one. What was written before a raise is rolled back with its transaction, so an error
-- carries no state.
use custom_domain.Common.{ℕ, ◌≡◌, refl, Bool, true, false, Option, max}
use custom_domain.Hostname.{HostnameError}

-- The `scope` in the details of `DomainLimitReached`.
pub data LimitScope : Type 0 where
  application deployment : LimitScope

pub data Error : Type 0 where
  application_suspended application_not_found confirmation_mismatch : Error
  application_already_exists invalid_application : Error
  application_not_empty : ℕ → Error
  domain_limit_reached : LimitScope → ℕ → ℕ → Error
  hostname_already_claimed domain_not_found invalid_reference : Error
  invalid_status_transition : Error
  invalid_credential credential_not_found credential_in_use credential_read_only : Error
  origin_not_found invalid_origin origin_conflict origin_not_verified origin_in_use : Error
  assertion_key_not_found invalid_assertion_key : Error
  webhook_not_found invalid_webhook delivery_not_found : Error
  invalid_connect_request connect_page_unavailable connect_session_not_found : Error
  domain_connect_unavailable domain_connect_signer_unavailable invalid_signer_config : Error
  invalid_idempotency_key : Error
  invalid_hostname : HostnameError → Error
  rate_limited : ℕ → Error

-- `RateLimited(message, retry_after=...)`
abbrev pub rate_limit : ℕ → Error
rate_limit retry_after = rate_limited (max 1 retry_after)

-- A service call: the exception that it raised, or its value.
pub data Result {ℓ} (T : Type ℓ) : Type ℓ where
  err : Error → Result T
  ok : T → Result T

abbrev pub raise_if : Bool → Error → Result (Unit {0})
raise_if condition error = elim condition [ true ↦ err error | false ↦ ok tt ]

abbrev pub or_raise {ℓ} : {A : Type ℓ} → Option A → Error → Result A
or_raise Option.none e = err e
or_raise (Option.some a) e = ok a

abbrev pub is_ok {ℓ} : {T : Type ℓ} → Result T → Bool
is_ok (err error) = false
is_ok (ok value) = true

pub is_ok_value {ℓ} :
    {T : Type ℓ} (call : Result T) → is_ok call ≡ true → (value : T) × (call ≡ ok value)
is_ok_value (err error) h = cc
is_ok_value (ok value) h = (value, refl)

-- The statements after a call run on its value; an exception skips them.
module _ {ℓ κ} {S : Type ℓ} {T : Type κ} where
  infixl 5 ◌>>=◌
  abbrev pub ◌>>=◌ : Result S → (S → Result T) → Result T
  err error >>= rest = err error
  ok value >>= rest = rest value

infixl 5 ◌>>◌
abbrev pub ◌>>◌ {κ} : {T : Type κ} → Result (Unit {0}) → Result T → Result T
call >> rest = call >>= (λ done. rest)

module _ {ℓ κ} {S : Type ℓ} {T : Type κ} where
  -- A call whose continuation succeeded has succeeded itself, with a value that it went on from.
  pub >>=-ok :
      (call : Result S) (rest : S → Result T) {out : T}
      → (call >>= rest) ≡ ok out
      → (value : S) × (call ≡ ok value) × (rest value ≡ ok out)
  >>=-ok (err error) rest h = cc
  >>=-ok (ok value) rest h = (value, refl, h)

  -- A call and its continuation on every value it can have succeed together.
  pub is_ok-bind :
      (call : Result S) (rest : S → Result T)
      → is_ok call ≡ true
      → ((value : S) → call ≡ ok value → is_ok (rest value) ≡ true)
      → is_ok (call >>= rest) ≡ true
  is_ok-bind (err error) rest h k = cc
  is_ok-bind (ok value) rest h k = k value refl
