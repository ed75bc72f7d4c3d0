-- ===== src/Model/Enums.antt =====
-- The enumerations of app/models/enums.py. Two members are equal when their stored values are, so
-- `==` compares the rank of a member in its class.
use custom_domain.Common.{ℕ, ◌≡◌, ◌↔◌, Bool, true, false, ◌==◌, arith}

pub data ApplicationStatus : Type 0 where
  active suspended : ApplicationStatus

pub data OriginStatus : Type 0 where
  pending verified failed retired : OriginStatus

pub data CredentialScope : Type 0 where
  full read : CredentialScope

pub data OriginHostHeader : Type 0 where
  customer origin : OriginHostHeader

pub data DomainStatus : Type 0 where
  pending_dns provisioning ready attention_required suspended deleting : DomainStatus

pub data ClaimStatus : Type 0 where
  pending verified revoked : ClaimStatus

pub data CheckType : Type 0 where
  ownership routing certificate origin : CheckType

pub data CheckStatus : Type 0 where
  pending passing failing : CheckStatus

-- The members that the modelled operations record.
pub data EventType : Type 0 where
  domain_created claim_issued claim_verified claim_revoked check_updated : EventType
  status_changed domain_deleted recheck_requested : EventType

abbrev pub status_rank : DomainStatus → ℕ
status_rank DomainStatus.pending_dns = 0
status_rank DomainStatus.provisioning = 1
status_rank DomainStatus.ready = 2
status_rank DomainStatus.attention_required = 3
status_rank DomainStatus.suspended = 4
status_rank DomainStatus.deleting = 5

abbrev pub status_eq : DomainStatus → DomainStatus → Bool
status_eq a b = status_rank a == status_rank b

abbrev pub type_rank : CheckType → ℕ
type_rank CheckType.ownership = 0
type_rank CheckType.routing = 1
type_rank CheckType.certificate = 2
type_rank CheckType.origin = 3

abbrev pub type_eq : CheckType → CheckType → Bool
type_eq a b = type_rank a == type_rank b

abbrev pub is_active_status : ApplicationStatus → Bool
is_active_status ApplicationStatus.active = true
is_active_status ApplicationStatus.suspended = false

abbrev pub is_verified_claim : ClaimStatus → Bool
is_verified_claim ClaimStatus.verified = true
is_verified_claim _ = false

abbrev pub is_pending_claim : ClaimStatus → Bool
is_pending_claim ClaimStatus.pending = true
is_pending_claim _ = false

abbrev pub is_revoked_claim : ClaimStatus → Bool
is_revoked_claim ClaimStatus.revoked = true
is_revoked_claim _ = false

abbrev pub is_passing : CheckStatus → Bool
is_passing CheckStatus.passing = true
is_passing _ = false

abbrev pub is_failing : CheckStatus → Bool
is_failing CheckStatus.failing = true
is_failing _ = false

abbrev pub is_full : CredentialScope → Bool
is_full CredentialScope.full = true
is_full CredentialScope.read = false

abbrev pub is_verified_origin : OriginStatus → Bool
is_verified_origin OriginStatus.verified = true
is_verified_origin _ = false

abbrev pub event_rank : EventType → ℕ
event_rank EventType.domain_created = 0
event_rank EventType.claim_issued = 1
event_rank EventType.claim_verified = 2
event_rank EventType.claim_revoked = 3
event_rank EventType.check_updated = 4
event_rank EventType.status_changed = 5
event_rank EventType.domain_deleted = 6
event_rank EventType.recheck_requested = 7

abbrev pub event_eq : EventType → EventType → Bool
event_eq a b = event_rank a == event_rank b

pub status_eq_iff : (a b : DomainStatus) → (status_eq a b ≡ true) ↔ (a ≡ b)
status_eq_iff a b = ground arith

pub type_eq_iff : (a b : CheckType) → (type_eq a b ≡ true) ↔ (a ≡ b)
type_eq_iff a b = ground arith
