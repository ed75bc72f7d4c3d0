-- ===== src/Tests/Data.antt =====
-- The concrete data of the tests.
use custom_domain.Common.{
  ℕ, ◌+◌, ◌≡◌, refl, true, false, none, some, [], ◌∷◌, Text, Time, codes, days, hours, arith, count,
}
use custom_domain.Model.{
  ApplicationStatus, DomainStatus, ClaimStatus, CheckType, CheckStatus, Application, OwnershipClaim,
  DomainCheck, Domain, Log, active_claim,
}
use custom_domain.Lifecycle.Status.{checks_passing, by_type}
use custom_domain.Hostname.{Libraries}
use custom_domain.Lifecycle.Sound.{IsSound, has_type}
use custom_domain.Registry.{Store}
use custom_domain.Registry.Sound.{IsRegistry}

abbrev pub libs : Libraries
libs = record {
  idna_encode = λ t. some t;
  ip_address = λ t. false;
  private_suffix = λ t. some (codes "acme.com");
}

abbrev pub draw_token : ℕ → ℕ → Text
draw_token bytes draw = bytes ∷ draw ∷ []

abbrev pub now : Time
now = days 1000

abbrev pub app : Application
app = record {
  id = 1;
  slug = codes "acme";
  name = codes "Acme";
  status = ApplicationStatus.active;
  cname_target = codes "edge.acme.net";
  workspace_probe_enabled = true;
  max_domains = some 3;
  rate_limit_per_minute = none;
  rate_limit_per_second = none;
  deleted_at = none;
  purge_after = none;
  origins = [];
}

abbrev pub empty_log : Log
empty_log = record { events = []; subscriptions = []; deliveries = []; next_id = 10 }

abbrev pub empty : Store
empty = record { applications = app ∷ []; domains = []; log = empty_log }

pub empty-IsRegistry : IsRegistry empty
empty-IsRegistry = record { distinct = tt; handed_out = tt; sound = tt }

abbrev pub hostname : Text
hostname = codes "app.acme.com"

abbrev pub check_of : CheckType → DomainCheck
check_of t = record {
  check_type = t;
  status = CheckStatus.passing;
  error_code = none;
  details = none;
  observed_at = some now;
  next_check_at = some (now + hours 6);
}

abbrev pub proof : OwnershipClaim
proof = record {
  id = 5;
  txt_record_name = codes "_custom-domain-challenge.app.acme.com";
  token = codes "t0k3n";
  cname_target = codes "edge.acme.net";
  status = ClaimStatus.verified;
  verification_method = some (codes "dns_txt");
  verified_at = some now;
  revoked_at = none;
  created_at = now;
}

-- A row in service.
abbrev pub row : Domain
row = record {
  id = 4;
  application_id = 1;
  hostname = hostname;
  reference = codes "ws";
  status = DomainStatus.ready;
  extra = none;
  zone = none;
  deleted_at = none;
  purge_after = none;
  connect_started_at = none;
  created_at = now;
  claims = proof ∷ [];
  checks =
      check_of CheckType.ownership
      ∷ check_of CheckType.routing
      ∷ check_of CheckType.certificate
      ∷ check_of CheckType.origin
      ∷ [];
}

row_once : (t : CheckType) → count (has_type t) row.checks ≡ 1
row_once CheckType.ownership = refl
row_once CheckType.routing = refl
row_once CheckType.certificate = refl
row_once CheckType.origin = refl

pub row-IsSound : IsSound row
unfolding active_claim checks_passing by_type
row-IsSound = record {
  evidence = (refl, refl);
  tombstone = tt;
  one_live = omega arith;
  each_check_once = row_once;
}

abbrev pub served : Store
served = record { applications = app ∷ []; domains = row ∷ []; log = empty_log }

pub served-IsRegistry : IsRegistry served
served-IsRegistry = record {
  distinct = (tt, tt);
  handed_out = (omega arith, tt);
  sound = (row-IsSound, tt);
}
