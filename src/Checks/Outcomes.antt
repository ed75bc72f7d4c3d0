-- ===== src/Checks/Outcomes.antt =====
-- app/services/dns_checks.py: what the resolver's answers say of a domain.
use custom_domain.Common.{
  ℕ, Bool, Option, none, some, List, [], ◌∷◌, map, any, take, select, member, text_eq, strip, codes,
  Text, if◌then◌else◌,
}
use custom_domain.Model.{
  CheckStatus, Details, OwnershipClaim, Domain, is_passing, is_revoked_claim, txt_record_value,
  active_claim,
}
use custom_domain.Checks.Resolver.{
  Answer, answer, name_not_found, unavailable, Resolver, cname_chain,
}

pub record Outcome : Type 0 where
  pub status : CheckStatus
  pub error_code : Option Text
  pub details : Details

abbrev pub passing : Outcome → Bool
passing o = is_passing o.status

-- `{"observed": values}` or `{"chain": values}`
abbrev pub observing : List Text → Details
observing values = record {
  attempts = none;
  failing_since = none;
  observed = values;
  reason = none;
}

abbrev pub failure : Text → List Text → Outcome
failure error_code values = record {
  status = CheckStatus.failing;
  error_code = some error_code;
  details = observing values;
}

abbrev pub success : List Text → Outcome
success values = record {
  status = CheckStatus.passing;
  error_code = none;
  details = observing values;
}

abbrev pub max_observed : ℕ
max_observed = 5

-- `_observed`
unfoldable pub observed : List Text → List Text
observed values = map (take 120) (take max_observed values)

-- The values of the claims that were revoked.
unfoldable pub stale : List OwnershipClaim → List Text
stale claims = map txt_record_value (select (λ c. is_revoked_claim c.status) claims)

-- `ownership_outcome`, once the TXT values are there.
unfoldable pub compare_txt : OwnershipClaim → Domain → List Text → Outcome
compare_txt claim d [] = failure (codes "txt_record_not_found") []
compare_txt claim d (v ∷ vs) =
    let values = v ∷ vs in
    if any (λ w. text_eq (strip w) (txt_record_value claim)) values
    then success (observed values)
    else if any (λ w. member (strip w) (stale d.claims)) values
    then failure (codes "txt_token_stale") (observed values)
    else failure (codes "txt_token_mismatch") (observed values)

-- The answer of the lookup.
unfoldable pub txt_outcome : OwnershipClaim → Domain → Answer (List Text) → Outcome
txt_outcome claim d name_not_found = failure (codes "txt_record_not_found") []
txt_outcome claim d unavailable = failure (codes "dns_timeout") []
txt_outcome claim d (answer values) = compare_txt claim d values

unfoldable pub ownership_outcome : Resolver → Domain → Outcome
ownership_outcome resolver d = elim (active_claim d) [
  | none ↦ failure (codes "claim_revoked") []
  | some claim ↦ txt_outcome claim d (resolver.txt claim.txt_record_name)
]

-- `routing_outcome`, once the chain is there. Whether the name has an address chooses between two messages.
unfoldable pub compare_chain : Text → List Text → Outcome
compare_chain target [] = failure (codes "cname_not_found") []
compare_chain target (name ∷ names) =
    if member target (name ∷ names)
    then success (name ∷ names)
    else failure (codes "cname_target_mismatch") (name ∷ names)

unfoldable pub chain_outcome : Text → Answer (List Text) → Outcome
chain_outcome target name_not_found = failure (codes "cname_not_found") []
chain_outcome target unavailable = failure (codes "dns_timeout") []
chain_outcome target (answer chain) = compare_chain target chain

unfoldable pub routing_outcome : Resolver → Domain → Outcome
routing_outcome resolver d = elim (active_claim d) [
  | none ↦ failure (codes "claim_revoked") []
  | some claim ↦
      chain_outcome claim.cname_target (cname_chain resolver d.hostname (some claim.cname_target))
]
