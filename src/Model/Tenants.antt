-- ===== src/Model/Tenants.antt =====
-- app/models/application.py and the rows that an application owns. The columns that the ORM stamps
-- by itself (updated_at) and the texts that only people read are left out; a table is listed in order of creation.
use custom_domain.Common.{
  ℕ, Bool, true, false, ◌&&◌, List, Option, none, some, Text, Time, ltb, is_none, first,
}
use custom_domain.Model.Enums.{
  ApplicationStatus, OriginStatus, CredentialScope, OriginHostHeader, is_verified_origin,
}

pub record VerifiedOrigin : Type 0 where
  pub id : ℕ
  pub application_id : ℕ
  pub scheme : Text
  pub host : Text
  pub port : ℕ
  pub host_header : OriginHostHeader
  pub status : OriginStatus
  pub is_active : Bool
  pub verification_token : Text
  pub verified_at : Option Time
  pub last_checked_at : Option Time
  pub last_error_code : Option Text

pub record ApiCredential : Type 0 where
  pub id : ℕ
  pub application_id : ℕ
  pub label : Text
  pub key_prefix : Text
  pub key_hash : Text
  pub scope : CredentialScope
  pub last_used_at : Option Time
  pub expires_at : Option Time
  pub revoked_at : Option Time

-- `ApiCredential.is_usable`
unfoldable pub is_usable : Time → ApiCredential → Bool
is_usable now c =
    let not_expired : Bool = elim c.expires_at [ none ↦ true | some at ↦ ltb now at ] in
    is_none c.revoked_at && not_expired

pub record Application : Type 0 where
  pub id : ℕ
  pub slug : Text
  pub name : Text
  pub status : ApplicationStatus
  pub cname_target : Text
  pub workspace_probe_enabled : Bool
  pub max_domains : Option ℕ
  pub rate_limit_per_minute : Option ℕ
  pub rate_limit_per_second : Option ℕ
  pub deleted_at : Option Time
  pub purge_after : Option Time
  pub origins : List VerifiedOrigin

unfoldable pub active_origin : Application → Option VerifiedOrigin
active_origin a = first (λ o. o.is_active) a.origins

-- The active origin, but only while its verification still holds.
unfoldable pub serving_origin : Application → Option VerifiedOrigin
unfolding active_origin
serving_origin a = elim (active_origin a) [
  | none ↦ none
  | some o ↦ elim (is_verified_origin o.status) [ true ↦ some o | false ↦ none ]
]
