-- ===== src/Edge/Routes.antt =====
-- `routable`, `serveable_route_groups` and `portal_hosts` of app/edge/config.py, with `pinned_dial` of
-- app/services/origin_verification.py. The order of the database on texts, the addresses that a host resolves to under the
-- address policy, and the order of addresses are parameters.
use custom_domain.Common.{
  ℕ, ◌==◌, Bool, true, false, not, ◌&&◌, ◌||◌, Option, none, some, List, [], ◌∷◌, ◌++◌, map, select,
  any, ltb, Text, text_eq, codes, str, if◌then◌else◌,
}
use custom_domain.Model.{
  DomainStatus, Application, VerifiedOrigin, OriginHostHeader, Domain, is_deleted, active_claim,
  serving_origin, is_active_status,
}
use custom_domain.Lifecycle.Status.{application_active, claim_verified}
use custom_domain.Registry.{Store}
use custom_domain.Tenants.Applications.{add_names, edge_names}

abbrev pub routable_status : DomainStatus → Bool
routable_status DomainStatus.provisioning = true
routable_status DomainStatus.ready = true
routable_status DomainStatus.attention_required = true
routable_status _ = false

-- `routable`, on a row and the application it refers to.
unfoldable pub routable : Option Application → Domain → Bool
routable application d =
    if is_deleted d || not (routable_status d.status)
    then false
    else if not (application_active application)
    then false
    else claim_verified (active_claim d)

pub record RouteGroup : Type 0 where
  pub application_slug : Text
  pub origin : Text
  pub origin_host : Text
  pub origin_tls : Bool
  pub hostnames : List Text
  pub per_minute : Option ℕ
  pub per_second : Option ℕ
  pub host_header : OriginHostHeader
  pub origin_port : ℕ

-- ORDER BY a text column, and `min`; rows that are equal keep their order.
unfoldable pub insert_by {ℓ} : {A : Type ℓ} → (A → A → Bool) → A → List A → List A
insert_by before x [] = x ∷ []
insert_by before x (y ∷ ys) = if before y x then y ∷ insert_by before x ys else x ∷ y ∷ ys

unfoldable pub sort_by {ℓ} : {A : Type ℓ} → (A → A → Bool) → List A → List A
unfolding insert_by
sort_by before [] = []
sort_by before (x ∷ xs) = insert_by before x (sort_by before xs)

abbrev pub has_colon : Text → Bool
has_colon address = any (λ c. c == b':') address

abbrev pub dial_text : ℕ → Text → Text
dial_text port address =
    if has_colon address
    then codes "[" ++ address ++ codes "]:" ++ str port
    else address ++ codes ":" ++ str port

abbrev pub lowest : (Text → Text → Bool) → Text → List Text → Text
lowest before dial [] = dial
lowest before dial (d ∷ ds) = lowest before (if before d dial then d else dial) ds

abbrev pub lowest_of : (Text → Text → Bool) → Option (List Text) → Option Text
lowest_of before none = none
lowest_of before (some []) = none
lowest_of before (some (d ∷ ds)) = some (lowest before d ds)

abbrev pub dials_of : ℕ → Option (List Text) → Option (List Text)
dials_of port none = none
dials_of port (some addresses) = some (map (dial_text port) addresses)

abbrev pub no_names : List Text → Bool
no_names [] = true
no_names (t ∷ ts) = false

abbrev pub is_https : Text → Bool
is_https scheme = text_eq scheme (codes "https")

module _ (collate : Text → Text → Bool) (resolve : Text → ℕ → Option (List Text))
    (dial_before : Text → Text → Bool) where
  -- What the edge dials for an origin; `none` where the origin fails its verification now.
  unfoldable pub pinned_dial : Text → ℕ → Option Text
  pinned_dial host port = lowest_of dial_before (dials_of port (resolve host port))

  abbrev pub group_of : Application → VerifiedOrigin → List Text → Option Text → List RouteGroup
  group_of a o hostnames none = []
  group_of a o hostnames (some dial) =
      if no_names hostnames
      then []
      else record {
        application_slug = a.slug;
        origin = dial;
        origin_host = o.host;
        origin_tls = is_https o.scheme;
        hostnames = hostnames;
        per_minute = a.rate_limit_per_minute;
        per_second = a.rate_limit_per_second;
        host_header = o.host_header;
        origin_port = o.port;
      }
        ∷ []

  -- The rows of the query of an application, and those of them that are routed.
  abbrev pub is_queried : Application → Domain → Bool
  is_queried a d = d.application_id == a.id && not (is_deleted d) && routable_status d.status

  abbrev pub routed_names : Application → List Domain → List Text
  routed_names a rows =
      map (λ d. d.hostname)
        (select (routable (some a))
          (sort_by (λ d e. collate d.hostname e.hostname) (select (is_queried a) rows)))

  abbrev pub group_for : Application → List Domain → Option VerifiedOrigin → List RouteGroup
  group_for a rows none = []
  group_for a rows (some o) = group_of a o (routed_names a rows) (pinned_dial o.host o.port)

  abbrev pub groups_of : List Application → List Domain → List RouteGroup
  groups_of [] rows = []
  groups_of (a ∷ rest) rows = group_for a rows (serving_origin a) ++ groups_of rest rows

  unfoldable pub serveable_route_groups : Store → List RouteGroup
  serveable_route_groups store =
      groups_of
        (sort_by (λ a b. collate a.slug b.slug)
          (select (λ a. is_active_status a.status) store.applications))
        store.domains

-- Python's order on texts.
unfoldable pub text_before : Text → Text → Bool
text_before s [] = false
text_before [] (d ∷ t) = true
text_before (c ∷ s) (d ∷ t) = ltb c d || c == d && text_before s t

abbrev pub all_edge_names : List Text → List Application → Store → List Text
all_edge_names names [] store = names
all_edge_names names (a ∷ rest) store =
    all_edge_names (add_names names (edge_names a store)) rest store

abbrev pub own_names : Option Text → List Text
own_names none = []
own_names (some name) = if text_eq name [] then [] else name ∷ []

-- Given EDGE_HOSTNAME.
unfoldable pub portal_hosts : (Text → Text → Bool) → Option Text → Store → List Text
portal_hosts collate edge_hostname store = sort_by text_before (
    all_edge_names (own_names edge_hostname)
      (sort_by (λ a b. collate a.slug b.slug)
        (select (λ a. is_active_status a.status) store.applications))
      store)

-- `origin_host_value`
unfoldable pub origin_host_value : Text → ℕ → Bool → Text
origin_host_value host port tls =
    let standard : ℕ = if tls then 443 else 80 in
    if port == standard then host else host ++ codes ":" ++ str port
