-- ===== src/Registry/Sound.antt =====
-- The invariant of the database, and the operations that keep it.
use custom_domain.Common.{
  ℕ, ◌<◌, ◌≤◌, ◌≡◌, sym, subst, Bool, true, false, some, List, [], ◌∷◌, arith, All, first,
  first-All, le_trans,
}
use custom_domain.Errors.{ok}
use custom_domain.Model.{Application, Domain, Log, is_deleted}
use custom_domain.Lifecycle.Sound.{IsSound, SameIdentity}
use custom_domain.Registry.Tables.{Store, visible, get_domain, save}
use custom_domain.Registry.Distinct.{Distinct, All-put_row, put_row-Distinct}

-- Rows are distinct, their identifiers were handed out, and each is sound.
pub record IsRegistry (store : Store) : Type 0 where
  pub distinct : Distinct store.domains
  pub handed_out : All (λ d. d.id < store.log.next_id) store.domains
  pub sound : All IsSound store.domains

pub All-later :
    (n m : ℕ) (rows : List Domain) → n ≤ m → All (λ d. d.id < n) rows → All (λ d. d.id < m) rows
All-later n m [] h a = tt
All-later n m (d ∷ ds) h (b, a) = (le_trans b h, All-later n m ds h a)

-- Writing back a row that a lookup found, after an operation that kept it sound.
pub save-IsRegistry :
    (p : Domain → Bool) (d : Domain) (s : Domain × Log) (store : Store)
    → IsRegistry store
    → first p store.domains ≡ some d
    → SameIdentity d s.0
    → IsSound s.0
    → store.log.next_id ≤ s.1.next_id
    → IsRegistry (save s store)
save-IsRegistry p d s store r found same sound later = record {
  distinct = put_row-Distinct p d s.0 same store.domains r.distinct found;
  handed_out =
      All-put_row (λ e. e.id < s.1.next_id) s.0 store.domains
        (All-later store.log.next_id s.1.next_id store.domains later r.handed_out)
        (let old = first-All (λ e. e.id < store.log.next_id) p store.domains found r.handed_out in
          subst (λ (i : ℕ). i < s.1.next_id) (sym same.id) (le_trans old later));
  sound = All-put_row IsSound s.0 store.domains r.sound sound;
}

-- What `get_domain` found is in the table, under that identifier and application.
pub get_domain_ok :
    (a : Application) (id : ℕ) (deleted : Bool) (store : Store) {d : Domain}
    → get_domain a id deleted store ≡ ok d
    → first (visible a.id id deleted) store.domains ≡ some d
unfolding get_domain
get_domain_ok a id deleted store h = ground arith

-- A row that is looked up among the live ones is live.
pub visible_live :
    (application_id id : ℕ) (d : Domain)
    → visible application_id id false d ≡ true
    → is_deleted d ≡ false
visible_live application_id id d h = ground arith
