-- ===== src/Model/Domains.antt =====
-- app/models/domain.py. A domain row carries its claims and checks, as the ORM's relationships do.
-- Texts written for people (`message`) and the columns that the ORM stamps are left out.
use custom_domain.Common.{ℕ, Bool, not, List, Option, Text, Time, first, is_some, codes, ◌++◌}
use custom_domain.Model.Enums.{
  DomainStatus, ClaimStatus, CheckType, CheckStatus, EventType, is_revoked_claim, type_eq,
}

pub record OwnershipClaim : Type 0 where
  pub id : ℕ
  pub txt_record_name : Text
  pub token : Text
  pub cname_target : Text
  pub status : ClaimStatus
  pub verification_method : Option Text
  pub verified_at : Option Time
  pub revoked_at : Option Time
  pub created_at : Time

unfoldable pub txt_record_value : OwnershipClaim → Text
txt_record_value c = codes "custom-domain-verify=" ++ c.token

-- The reasons that the service passes to `transition_status` and writes into `details`.
pub data Reason : Type 0 where
  claim_reissued dns_verified recovered ownership_lost readiness_probe_passed : Reason
  check_failed : CheckType → Reason

-- `details` of a check: the keys that the service reads back, and the values that a DNS check observed.
pub record Details : Type 0 where
  pub attempts : Option ℕ
  pub failing_since : Option Time
  pub observed : List Text
  pub reason : Option Reason

pub record DomainCheck : Type 0 where
  pub check_type : CheckType
  pub status : CheckStatus
  pub error_code : Option Text
  pub details : Option Details
  pub observed_at : Option Time
  pub next_check_at : Option Time

pub record Domain : Type 0 where
  pub id : ℕ
  pub application_id : ℕ
  pub hostname : Text
  pub reference : Text
  pub status : DomainStatus
  pub extra : Option Text
  pub zone : Option Text
  pub deleted_at : Option Time
  pub purge_after : Option Time
  pub connect_started_at : Option Time
  pub created_at : Time
  pub claims : List OwnershipClaim
  pub checks : List DomainCheck

unfoldable pub is_deleted : Domain → Bool
is_deleted d = is_some d.deleted_at

abbrev pub is_live_claim : OwnershipClaim → Bool
is_live_claim c = not (is_revoked_claim c.status)

unfoldable pub active_claim : Domain → Option OwnershipClaim
active_claim d = first is_live_claim d.claims

-- `Domain.check`
unfoldable pub check : CheckType → Domain → Option DomainCheck
check t d = first (λ c. type_eq c.check_type t) d.checks

-- The `payload` of an event, by its shape.
pub data Payload : Type 0 where
  created : Text → Text → Payload
  issued : ℕ → Text → Payload
  verified : ℕ → Text → Payload
  revoked : ℕ → Text → Payload
  check_updated : CheckType → Option CheckStatus → CheckStatus → Option Text → Payload
  status_changed : DomainStatus → DomainStatus → Option Reason → Payload
  deleted : Text → Time → Payload
  recheck : Text → Payload

pub record DomainEvent : Type 0 where
  pub id : ℕ
  pub domain_id : ℕ
  pub application_id : ℕ
  pub event_type : EventType
  pub payload : Payload
  pub created_at : Time
