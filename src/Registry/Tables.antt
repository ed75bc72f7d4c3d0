-- ===== src/Registry/Tables.antt =====
-- The tables that app/services/domains.py reads and writes, and the lookup of a row.
use custom_domain.Common.{ℕ, Bool, not, ◌&&◌, ◌||◌, List, ◌==◌, first, update}
use custom_domain.Errors.{Result, or_raise, domain_not_found}
use custom_domain.Model.{Application, Domain, Log, is_deleted}

pub record Store : Type 0 where
  pub applications : List Application
  pub domains : List Domain
  pub log : Log

-- `get_domain`'s WHERE clause; another application's row is not found.
abbrev pub visible : ℕ → ℕ → Bool → Domain → Bool
visible application_id domain_id include_deleted d =
    (include_deleted || not (is_deleted d))
    && d.id == domain_id
    && d.application_id == application_id

unfoldable pub get_domain : Application → ℕ → Bool → Store → Result Domain
get_domain application domain_id include_deleted store =
    or_raise (first (visible application.id domain_id include_deleted) store.domains)
      domain_not_found

-- Writes a row back.
abbrev pub put_row : Domain → List Domain → List Domain
put_row d rows = update (λ r. r.id == d.id) (λ _. d) rows

abbrev pub save : Domain × Log → Store → Store
save (d, log) store = record store { domains = put_row d store.domains; log = log }
