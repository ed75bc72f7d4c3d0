-- ===== src/Checks/Leasing.antt =====
-- app/dns/worker.py: the checks that are due, their lease, the row that is loaded, and the version of its claim.
use custom_domain.Common.{
  ℕ, ◌+◌, ◌==◌, Bool, true, false, not, ◌&&◌, ◌||◌, Option, none, some, List, [], ◌∷◌, map, select,
  any, first, update, Text, text_eq, Time, minutes, leb, if◌then◌else◌,
}
use custom_domain.Model.{
  DomainStatus, CheckType, Application, OwnershipClaim, DomainCheck, Domain, is_deleted,
  active_claim, status_eq, type_eq,
}
use custom_domain.Registry.{Store, save}
use custom_domain.Registry.{make_due}
use custom_domain.Checks.Edge.{certificate_authorized}

abbrev pub dns_check_types : List CheckType
dns_check_types = CheckType.ownership ∷ CheckType.routing ∷ []

abbrev pub edge_check_types : List CheckType
edge_check_types = CheckType.certificate ∷ CheckType.origin ∷ []

abbrev pub lease : Time
lease = minutes 2

-- `_due`
unfoldable pub check_due : Time → DomainCheck → Bool
check_due now c = due_at now c.next_check_at
  where
    due_at : Time → Option Time → Bool
    due_at now none = true
    due_at now (some at) = leb at now

abbrev pub among : List CheckType → CheckType → Bool
among types t = any (λ u. type_eq u t) types

abbrev pub row_of : ℕ → Store → Option Domain
row_of domain_id store = first (λ d. d.id == domain_id) store.domains

abbrev pub due_types : Time → Option Domain → List CheckType
due_types now none = []
due_types now (some d) = map (λ c. c.check_type) (select (check_due now) d.checks)

unfoldable pub due_check_types : ℕ → Time → Store → List CheckType
due_check_types domain_id now store = due_types now (row_of domain_id store)

-- The rows of the UPDATE of `lease_domain`.
abbrev pub leasable : Time → List CheckType → Bool → DomainCheck → Bool
leasable now types force c = among types c.check_type && (force || check_due now c)

unfoldable pub lease_row : Time → List CheckType → Bool → Domain → Domain
lease_row now types force d = record d {
  checks = update (leasable now types force) (make_due (now + lease)) d.checks;
}

abbrev pub lease_found : Time → List CheckType → Bool → Store → Option Domain → Bool × Store
lease_found now types force store none = (false, store)
lease_found now types force store (some d) =
    if any (leasable now types force) d.checks
    then (true, save (lease_row now types force d, store.log) store)
    else (false, store)

unfoldable pub lease_domain : ℕ → Time → List CheckType → Bool → Store → Bool × Store
lease_domain domain_id now types force store =
    lease_found now types force store (row_of domain_id store)

-- `_load`
abbrev pub is_loaded : ℕ → Domain → Bool
is_loaded domain_id d = not (is_deleted d) && d.id == domain_id

abbrev pub unless_deleting : Option Domain → Option Domain
unless_deleting none = none
unless_deleting (some d) = if status_eq d.status DomainStatus.deleting then none else some d

unfoldable pub load : ℕ → Store → Option Domain
load domain_id store = unless_deleting (first (is_loaded domain_id) store.domains)

abbrev pub version_of : Option OwnershipClaim → Option (ℕ × Text × Text)
version_of none = none
version_of (some c) = some (c.id, c.token, c.cname_target)

unfoldable pub claim_version : Domain → Option (ℕ × Text × Text)
claim_version d = version_of (active_claim d)

abbrev pub same_version : Option (ℕ × Text × Text) → Option (ℕ × Text × Text) → Bool
same_version none none = true
same_version (some (i, token, target)) (some (j, token', target')) =
    i == j && text_eq token token' && text_eq target target'
same_version _ _ = false

-- The application that the row refers to, which `_domain_query` joins.
unfoldable pub application_of : Domain → Store → Option Application
application_of d store = first (λ a. a.id == d.application_id) store.applications

unfoldable pub eligible_for_edge_checks : Domain → Store → Bool
eligible_for_edge_checks d store = certificate_authorized (application_of d store) d
