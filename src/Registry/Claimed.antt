-- ===== src/Registry/Claimed.antt =====
-- What a successful `claim_domain` did.
use custom_domain.Common.{
  ℕ, ◌≡◌, refl, true, false, ◌||◌, Option, some, arith, Text, Time, strip, ltb, length,
}
use custom_domain.Errors.{ok}
use custom_domain.Model.{Application, Domain, is_active_status}
use custom_domain.Hostname.{Libraries, Canonical, canonicalize}
use custom_domain.Registry.Tables.{Store}
use custom_domain.Registry.Limits.{enforce, enforce_registration_limit}
use custom_domain.Registry.Claim.{is_claimed, is_empty, register, claim_domain}

module _ (libs : Libraries) (token_urlsafe : ℕ → ℕ → Text) where
  -- Every guard behind a claim that succeeded.
  pub record IsClaimed (limit : Option ℕ) (a : Application) (hostname : Text) (reference : Text)
      (metadata : Option Text) (now : Time) (store : Store) (out : Domain × Store) : Type 0 where
    pub active : is_active_status a.status ≡ true
    pub referenced : (is_empty (strip reference) || ltb 255 (length reference)) ≡ false
    pub name : Text
    pub canonical : canonicalize libs (some hostname) false ≡ Canonical.ok name
    pub in_limits : enforce limit a store.domains ≡ ok tt
    pub in_budget : enforce_registration_limit a now store.log.events ≡ ok tt
    pub unclaimed : is_claimed name store.domains ≡ false
    pub registered : register libs token_urlsafe a name reference metadata now store ≡ out

  pub claim_domain_ok :
      (limit : Option ℕ) (a : Application) (hostname reference : Text) (metadata : Option Text)
      (now : Time) (store : Store) {out : Domain × Store}
      → claim_domain libs token_urlsafe limit a hostname reference metadata now store ≡ ok out
      → IsClaimed limit a hostname reference metadata now store out
  unfolding claim_domain
  claim_domain_ok limit a hostname reference metadata now store {out} h =
      go (canonicalize libs (some hostname) false) refl h
    where
      go :
          (c : Canonical)
          → canonicalize libs (some hostname) false ≡ c
          → claim_domain libs token_urlsafe limit a hostname reference metadata now store ≡ ok out
          → IsClaimed limit a hostname reference metadata now store out
      go (Canonical.ok name) e h = record {
        active = ground arith;
        referenced = ground arith;
        name = name;
        canonical = e;
        in_limits = ground arith;
        in_budget = ground arith;
        unclaimed = ground arith;
        registered = ground arith;
      }
      go (Canonical.invalid x) e h = absurd (ground arith)
