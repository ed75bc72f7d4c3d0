-- ===== src/Lifecycle/Sound.antt =====
-- The invariant of a domain row, and what writing a check or the live claim does to it.
use custom_domain.Common.{
  ◌≤◌, ◌≡◌, ◌≢◌, refl, Bool, true, false, not, ◌&&◌, Option, none, some, List, [], ◌∷◌, arith,
  count, first, Time, is_some,
}
use custom_domain.Model.{
  DomainStatus, CheckType, OwnershipClaim, DomainCheck, Domain, status_eq, is_deleted, type_eq,
  type_eq_iff, is_live_claim, active_claim,
}
use custom_domain.Lifecycle.Status.{by_type, claim_verified, checks_passing, put_check}
use custom_domain.Lifecycle.Claims.{put_live_claim}

-- What a status promises: `ready` a verified live claim and four passing checks.
abbrev pub Evidence : DomainStatus → Domain → Type 0
Evidence DomainStatus.ready d = (claim_verified (active_claim d) ≡ true) × (checks_passing d ≡ true)
Evidence _ d = Unit

-- What a deletion promises: the status `deleting` and no live claim.
abbrev pub Tombstoned : Option Time → Domain → Type 0
Tombstoned none d = Unit
Tombstoned (some at) d = (d.status ≡ DomainStatus.deleting) × (active_claim d ≡ none)

-- A row that is not deleted has nothing to show for a deletion.
pub live_untombstoned : (o : Option Time) (d : Domain) → is_some o ≡ false → Tombstoned o d
live_untombstoned none d h = tt
live_untombstoned (some at) d h = cc

-- A status other than `ready` promises nothing.
pub not_ready-Evidence :
    (s : DomainStatus) (d : Domain) → status_eq s DomainStatus.ready ≡ false → Evidence s d
not_ready-Evidence DomainStatus.ready d h = cc
not_ready-Evidence _ d h = tt

abbrev pub has_type : CheckType → DomainCheck → Bool
has_type t c = type_eq c.check_type t

pub record IsSound (d : Domain) : Type 0 where
  pub evidence : Evidence d.status d
  pub tombstone : Tombstoned d.deleted_at d
  pub one_live : count is_live_claim d.claims ≤ 1
  pub each_check_once : (t : CheckType) → count (has_type t) d.checks ≡ 1

pub by_type-none :
    (t : CheckType) (cs : List DomainCheck) → count (has_type t) cs ≡ 0 → by_type t cs ≡ none
unfolding by_type
by_type-none t [] h = refl
by_type-none t (c ∷ cs) h = ground (arith, by_type-none t cs)

-- The check that is read for a type after a write: the one written, if it is of that type.
pub by_type-put_check_self :
    (c : DomainCheck) (cs : List DomainCheck)
    → count (has_type c.check_type) cs ≤ 1
    → by_type c.check_type (put_check c cs) ≡ some c
unfolding by_type put_check
by_type-put_check_self c [] h = ground (arith, type_eq_iff c.check_type c.check_type)
by_type-put_check_self c (d ∷ ds) h = ground (
  arith,
  type_eq_iff c.check_type c.check_type,
  by_type-none c.check_type ds,
  by_type-put_check_self c ds,
)

pub by_type-put_check_ne :
    (t : CheckType) (c : DomainCheck) (cs : List DomainCheck)
    → type_eq c.check_type t ≡ false
    → by_type t (put_check c cs) ≡ by_type t cs
unfolding by_type put_check
by_type-put_check_ne t c [] h = ground arith
by_type-put_check_ne t c (d ∷ ds) h = ground (
  arith,
  type_eq_iff d.check_type c.check_type,
  type_eq_iff d.check_type t,
  type_eq_iff c.check_type t,
  by_type-put_check_ne t c ds h,
)

pub count-put_check :
    (t : CheckType) (c : DomainCheck) (cs : List DomainCheck)
    → count (has_type c.check_type) cs ≡ 1
    → count (has_type t) (put_check c cs) ≡ count (has_type t) cs
unfolding put_check
count-put_check t c [] h = absurd (omega arith)
count-put_check t c (d ∷ ds) h = ground (arith, count-put_check t c ds)

pub first-count :
    (cs : List OwnershipClaim) → count is_live_claim cs ≡ 0 → first is_live_claim cs ≡ none
first-count [] h = refl
first-count (c ∷ cs) h = ground (arith, first-count cs)

pub count-put_live_claim :
    (c : OwnershipClaim) (cs : List OwnershipClaim)
    → count is_live_claim (put_live_claim c cs) ≤ count is_live_claim cs
unfolding put_live_claim
count-put_live_claim c [] = omega arith
count-put_live_claim c (d ∷ ds) = ground (arith, count-put_live_claim c ds)

-- After a write of a live claim that is the one read; after a write of a dead one none is.
pub first-put_live_claim :
    (c : OwnershipClaim) (cs : List OwnershipClaim)
    → first is_live_claim cs ≢ none
    → is_live_claim c ≡ true
    → first is_live_claim (put_live_claim c cs) ≡ some c
unfolding put_live_claim
first-put_live_claim c [] h l = absurd (h refl)
first-put_live_claim c (d ∷ ds) h l = ground (arith, first-put_live_claim c ds)

pub first-put_dead_claim :
    (c : OwnershipClaim) (cs : List OwnershipClaim)
    → count is_live_claim cs ≤ 1
    → is_live_claim c ≡ false
    → count is_live_claim (put_live_claim c cs) ≡ 0
unfolding put_live_claim
first-put_dead_claim c [] h l = refl
first-put_dead_claim c (d ∷ ds) h l = ground (arith, first-put_dead_claim c ds)

-- What no operation changes; a deletion is never undone.
pub record SameIdentity (d d' : Domain) : Type 0 where
  pub id : d'.id ≡ d.id
  pub application_id : d'.application_id ≡ d.application_id
  pub hostname : d'.hostname ≡ d.hostname
  pub reference : d'.reference ≡ d.reference
  pub created_at : d'.created_at ≡ d.created_at
  pub stays_deleted : (is_deleted d && not (is_deleted d')) ≡ false

pub SameIdentity-refl : (d : Domain) → SameIdentity d d
unfolding is_deleted
SameIdentity-refl d = ground arith

pub SameIdentity-trans : {d e f : Domain} → SameIdentity d e → SameIdentity e f → SameIdentity d f
unfolding is_deleted
SameIdentity-trans {d} {e} {f} p q = ground arith

pub moved-SameIdentity :
    (d : Domain) (s : DomainStatus) (cs : List DomainCheck)
    → SameIdentity d (record d { status = s; checks = cs })
unfolding is_deleted
moved-SameIdentity d s cs = ground arith
