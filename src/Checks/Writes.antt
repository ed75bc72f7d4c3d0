-- ===== src/Checks/Writes.antt =====
-- The transactions of `process_domain` of app/dns/worker.py and the invariant of the database.
use custom_domain.Common.{
  ℕ, ◌≤◌, ◌≡◌, refl, ap, subst, inl, inr, Bool, true, false, not, ◌&&◌, ◌||◌, Option, none, some,
  List, [], ◌∷◌, any, first, update, ◌+◌, first-All, Text, Time, arith, Bool-cases, Option-cases,
  ◌∙◌, ◌==◌, if◌then◌else◌,
}
use custom_domain.Errors.{ok, >>=-ok}
use custom_domain.Model.{
  DomainStatus, CheckType, Application, DomainCheck, Domain, Log, is_deleted, active_claim,
}
use custom_domain.Lifecycle.Status.{checks_passing}
use custom_domain.Lifecycle.Sound.{IsSound, SameIdentity, SameIdentity-trans}
use custom_domain.Lifecycle.Identity.{Reach-SameIdentity}
use custom_domain.Registry.{Store, save, make_due}
use custom_domain.Registry.Sound.{IsRegistry, save-IsRegistry}
use custom_domain.Checks.Outcomes.{Outcome}
use custom_domain.Checks.Apply.{apply_dns_outcomes}
use custom_domain.Checks.Edge.{
  EdgeProber, WorkspaceProbe, workspace_outcome, certificate_outcome, origin_outcome,
  apply_edge_outcomes,
}
use custom_domain.Checks.Runs.{Decided, apply_dns_outcomes-Reach, apply_edge_outcomes-Reach}
use custom_domain.Checks.Worker.{pending_status}
use custom_domain.Checks.Ids.{apply_dns_outcomes-Onward, apply_edge_outcomes-Onward}
use custom_domain.Checks.Leases.{scheduled-IsSound}
use custom_domain.Checks.Leasing.{
  lease_row, lease_found, lease_domain, is_loaded, load, claim_version, same_version,
  eligible_for_edge_checks, among, dns_check_types, edge_check_types, leasable, lease, row_of,
}
use custom_domain.Checks.Process.{
  Job, Processed, lease_edge, loaded, lease_and_load, with_zone, observed_row, dns_due_again,
  settle_dns, record_dns_found, record_edge_found,
}

-- A row written back over the one that was read: what keeps the database sound.
record Kept (before : Domain) (log : Log) (after : Domain × Log) : Type 0 where
  sound : IsSound after.0
  same : SameIdentity before after.0
  onward : log.next_id ≤ after.1.next_id

write-IsRegistry :
    (p : Domain → Bool) (d : Domain) (s : Domain × Log) (store : Store)
    → IsRegistry store
    → first p store.domains ≡ some d
    → Kept d store.log s
    → IsRegistry (save s store)
write-IsRegistry p d s store r found k = save-IsRegistry p d s store r found k.same k.sound k.onward

load_ok :
    (domain_id : ℕ) (store : Store) (d : Domain)
    → load domain_id store ≡ some d
    → first (is_loaded domain_id) store.domains ≡ some d
unfolding load
load_ok domain_id store d h = elim (Option-cases (first (is_loaded domain_id) store.domains)) [
  | inl missing ↦ absurd (let e = rw missing at h in ground arith)
  | inr (e, found) ↦
      let q = rw found at h in let same : e ≡ d = ground arith in found ∙ ap some same
]

zoned-IsSound :
    (zone : Text) (d : Domain)
    → IsSound d
    → let d' = record d { zone = some zone } in IsSound d' × SameIdentity d d'
unfolding is_deleted active_claim checks_passing
zoned-IsSound zone d s = (
  record {
    evidence = ground (arith, s.evidence);
    tombstone = ground (arith, s.tombstone);
    one_live = s.one_live;
    each_check_once = s.each_check_once;
  },
  ground arith,
)

with_zone-Kept :
    (zone : Option Text) (d : Domain) (log : Log) (s : Domain × Log)
    → Kept d log s
    → Kept d log (with_zone zone s.0, s.1)
with_zone-Kept none d log s k = record { sound = k.sound; same = k.same; onward = k.onward }
with_zone-Kept (some zone) d log s k =
    let (sound, same) = zoned-IsSound zone s.0 k.sound in
    record { sound = sound; same = SameIdentity-trans k.same same; onward = k.onward }

scheduled-Kept :
    (p : DomainCheck → Bool) (at : Time) (d : Domain) (log : Log)
    → IsSound d
    → Kept d log (record d { checks = update p (make_due at) d.checks }, log)
scheduled-Kept p at d log s =
    let (sound, same) = scheduled-IsSound p at d s in
    record { sound = sound; same = same; onward = omega arith }

-- The lease of some checks.
lease_found-IsRegistry :
    (q : Domain → Bool) (now : Time) (types : List CheckType) (force : Bool) (store : Store)
    (o : Option Domain)
    → first q store.domains ≡ o
    → IsRegistry store
    → IsRegistry (lease_found now types force store o).1
unfolding lease_row
lease_found-IsRegistry q now types force store none e r = r
lease_found-IsRegistry q now types force store (some d) e r =
    elim (Bool-cases (any (leasable now types force) d.checks)) [
      | inl t ↦ rw t (
          write-IsRegistry q d (lease_row now types force d, store.log) store r e
            (scheduled-Kept (leasable now types force) (now + lease) d store.log
              (first-All IsSound q store.domains e r.sound)))
      | inr f ↦ rw f r
    ]

lease_domain-IsRegistry :
    (domain_id : ℕ) (now : Time) (types : List CheckType) (force : Bool) (store : Store)
    → IsRegistry store
    → IsRegistry (lease_domain domain_id now types force store).1
unfolding lease_domain
lease_domain-IsRegistry domain_id now types force store r =
    lease_found-IsRegistry (λ d. d.id == domain_id) now types force store (row_of domain_id store)
      refl r

lease_edge-IsRegistry :
    (domain_id : ℕ) (now : Time) (changed edge_due : Bool) (store : Store)
    → IsRegistry store
    → IsRegistry (lease_edge domain_id now changed edge_due store).1
lease_edge-IsRegistry domain_id now changed edge_due store r =
    elim (Bool-cases (changed && not edge_due)) [
      | inl t ↦ rw t (lease_domain-IsRegistry domain_id now edge_check_types true store r)
      | inr f ↦ rw f r
    ]

pub lease_and_load-IsRegistry :
    (domain_id : ℕ) (now : Time) (types : List CheckType) (others : Store → Store) (store : Store)
    → ((store : Store) → IsRegistry store → IsRegistry (others store))
    → IsRegistry store
    → IsRegistry (lease_and_load domain_id now types others store).1
unfolding lease_and_load
lease_and_load-IsRegistry domain_id now [] others store orderly r = r
lease_and_load-IsRegistry domain_id now (t ∷ ts) others store orderly r =
    loaded-IsRegistry (t ∷ ts) (lease_domain domain_id now (t ∷ ts) false store)
      (lease_domain-IsRegistry domain_id now (t ∷ ts) false store r)
  where
    loaded-IsRegistry :
        (types : List CheckType) (s : Bool × Store)
        → IsRegistry s.1
        → IsRegistry (loaded domain_id types others s).1
    loaded-IsRegistry types (false, store) r = r
    loaded-IsRegistry types (true, store) r = orderly store r

-- Any generator of tokens: the observations draw none.
abbrev no_token : ℕ → ℕ → Text
no_token bytes draw = []

-- What is written after the DNS queries.
observed_row-Kept :
    (ownership routing : Outcome) (zone : Option Text) (queried : Domain) (now : Time) (d : Domain)
    (log : Log) (s : Domain × Log)
    → Decided ownership
    → Decided routing
    → IsSound d
    → observed_row ownership routing zone queried now d log ≡ ok (some s)
    → Kept d log s
unfolding observed_row
observed_row-Kept ownership routing zone queried now d log s p q sound h =
    elim (Bool-cases (same_version (claim_version d) (claim_version queried))) [
      | inr f ↦ absurd (let e = rw (f, observed_row) at h in ground arith)
      | inl t ↦
          let (out, applied, rest) =
            >>=-ok (apply_dns_outcomes ownership routing now d log) _ (rw (t, observed_row) at h) in
          let (sound', same) =
            Reach-SameIdentity no_token
              (apply_dns_outcomes-Reach no_token ownership routing now d log out p q applied)
              sound in
          let e : (with_zone zone out.0, out.1) ≡ s = ground arith in
          subst (Kept d log) e (
            with_zone-Kept zone d log out (record {
              sound = sound';
              same = same;
              onward = apply_dns_outcomes-Onward ownership routing now d log out applied;
            }))
    ]

settle_dns-IsRegistry :
    (domain_id : ℕ) (j : Job) (now : Time) (d : Domain) (store : Store) (o : Option (Domain × Log))
    → IsRegistry store
    → first (is_loaded domain_id) store.domains ≡ some d
    → ((s : Domain × Log) → o ≡ some s → Kept d store.log s)
    → IsRegistry (settle_dns domain_id j now d store o).1
unfolding dns_due_again
settle_dns-IsRegistry domain_id j now d store none r found k =
    write-IsRegistry (is_loaded domain_id) d (dns_due_again now d, store.log) store r found
      (scheduled-Kept (λ c. among dns_check_types c.check_type) now d store.log
        (first-All IsSound (is_loaded domain_id) store.domains found r.sound))
settle_dns-IsRegistry domain_id j now d store (some s) r found k =
    lease_edge-IsRegistry domain_id now _ j.edge_due (save s store)
      (write-IsRegistry (is_loaded domain_id) d s store r found (k s refl))

module _ (ownership routing : Outcome) (p : Decided ownership) (q : Decided routing) where
  pub record_dns_found-IsRegistry :
      (domain_id : ℕ) (detected : Option Text) (j : Job) (now : Time) (store : Store)
      (o : Option Domain) (out : Option Bool × Store)
      → load domain_id store ≡ o
      → IsRegistry store
      → record_dns_found domain_id ownership routing detected j now store o ≡ ok out
      → IsRegistry out.1
  record_dns_found-IsRegistry domain_id detected j now store none out e r h =
      subst IsRegistry (ground arith) r
  record_dns_found-IsRegistry domain_id detected j now store (some d) out e r h =
      let found = load_ok domain_id store d e in
      let sound = first-All IsSound (is_loaded domain_id) store.domains found r.sound in
      let (o, observed, rest) =
        >>=-ok (observed_row ownership routing detected j.domain now d store.log) _ h in
      let same : (settle_dns domain_id j now d store o).1 ≡ out.1 = ground arith in
      subst IsRegistry same (
        settle_dns-IsRegistry domain_id j now d store o r found (λ s is.
          observed_row-Kept ownership routing detected j.domain now d store.log s p q sound
            (observed ∙ ap ok is)))

pub certificate_outcome-decided :
    (prober : EdgeProber) (d : Domain) (disable_https : Bool) (now : Time)
    → pending_status (certificate_outcome prober d disable_https now).status ≡ false
unfolding certificate_outcome
certificate_outcome-decided prober d disable_https now = ground arith

workspace_outcome-decided :
    (id_text : ℕ → Text) (d : Domain) (probe : WorkspaceProbe)
    → pending_status (workspace_outcome id_text d probe).status ≡ false
unfolding workspace_outcome
workspace_outcome-decided id_text d probe = ground arith

pub origin_outcome-decided :
    (id_text : ℕ → Text) (a : Option Application) (d : Domain) (prober : EdgeProber)
    → pending_status (origin_outcome id_text a d (some prober)).status ≡ false
unfolding origin_outcome
origin_outcome-decided id_text a d prober = grind (arith, workspace_outcome-decided id_text d)

module _ (certificate origin : Outcome) (p : Decided certificate) (q : Decided origin) where
  pub record_edge_found-IsRegistry :
      (domain_id : ℕ) (probed : Domain) (now : Time) (store : Store) (o : Option Domain)
      (out : Option DomainStatus × Store)
      → load domain_id store ≡ o
      → IsRegistry store
      → record_edge_found certificate origin probed now store o ≡ ok out
      → IsRegistry out.1
  record_edge_found-IsRegistry domain_id probed now store none out e r h =
      subst IsRegistry (ground arith) r
  record_edge_found-IsRegistry domain_id probed now store (some d) out e r h =
      elim (Bool-cases (
        not (same_version (claim_version d) (claim_version probed))
        || not (eligible_for_edge_checks d store))) [
          | inl t ↦ subst IsRegistry (let e = rw t at h in ground arith) r
          | inr f ↦
              let found = load_ok domain_id store d e in
              let sound = first-All IsSound (is_loaded domain_id) store.domains found r.sound in
              let (s, applied, rest) =
                >>=-ok (apply_edge_outcomes certificate origin now d store.log) _ (rw f at h) in
              let (sound', same) =
                Reach-SameIdentity no_token
                  (apply_edge_outcomes-Reach no_token certificate origin now d store.log s p q
                    applied)
                  sound in
              let written : save s store ≡ out.1 = ground arith in
              subst IsRegistry written (
                write-IsRegistry (is_loaded domain_id) d s store r found (record {
                  sound = sound';
                  same = same;
                  onward = apply_edge_outcomes-Onward certificate origin now d store.log s applied;
                }))
        ]

pub either-IsRegistry :
    (b : Bool) (x y : Option Processed × Store)
    → IsRegistry x.1
    → IsRegistry y.1
    → IsRegistry (if b then x else y).1
either-IsRegistry true x y r q = r
either-IsRegistry false x y r q = q
