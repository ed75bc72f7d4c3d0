-- ===== src/Tests/Edges.antt =====
-- The theorem on the routes of the edge at a concrete database.
use custom_domain.Common.{
  ℕ, ◌≤◌, ◌≡◌, ◌&&◌, true, none, some, Option, List, [], ◌∷◌, Text, codes, any, count, text_eq,
  arith,
}
use custom_domain.Model.{OriginStatus, OriginHostHeader, VerifiedOrigin}
use custom_domain.Registry.{Store}
use custom_domain.Registry.Sound.{IsRegistry}
use custom_domain.Edge.Routes.{serveable_route_groups, text_before}
use custom_domain.Edge.Sums.{total}
use custom_domain.Edge.RouteLaws.{hosts, is_routed, UniqueIds, route_groups_lem}
use custom_domain.Tests.Data.{now, app, hostname, row, empty_log, row-IsSound}

abbrev origin : VerifiedOrigin
origin = record {
  id = 2;
  application_id = 1;
  scheme = codes "https";
  host = codes "origin.acme.net";
  port = 443;
  host_header = OriginHostHeader.customer;
  status = OriginStatus.verified;
  is_active = true;
  verification_token = codes "tok";
  verified_at = some now;
  last_checked_at = some now;
  last_error_code = none;
}

abbrev published : Store
published = record {
  applications = record app { origins = origin ∷ [] } ∷ [];
  domains = row ∷ [];
  log = empty_log;
}

published-IsRegistry : IsRegistry published
published-IsRegistry = record {
  distinct = (tt, tt);
  handed_out = (omega arith, tt);
  sound = (row-IsSound, tt);
}

unique :
    UniqueIds text_before
      (λ host port. some (codes "203.0.113.7" ∷ []))
      text_before
      published.applications
unique i = ground arith

abbrev resolve : Text → ℕ → Option (List Text)
resolve host port = some (codes "203.0.113.7" ∷ [])

route_groups_lem_example :
    let listings =
      total (hosts hostname) (serveable_route_groups text_before resolve text_before published) in
    (listings
      ≡ count
          (λ d.
            any
              (λ a. is_routed text_before resolve text_before a d && text_eq d.hostname hostname)
              published.applications)
          published.domains)
    × (listings ≤ 1)
route_groups_lem_example =
    route_groups_lem text_before resolve text_before hostname published published-IsRegistry unique
