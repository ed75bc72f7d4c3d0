-- ===== src/Registry/Reads.antt =====
-- The reads of app/services/domains.py. The portal's `search` is not part of them.
use custom_domain.Common.{
  ℕ, ◌+◌, Bool, true, false, not, ◌&&◌, ◌||◌, Option, none, some, List, [], ◌∷◌, ◌==◌, ltb, leb,
  min, max, if◌then◌else◌, Text, text_eq, first, select, take, drop, length,
}
use custom_domain.Errors.{Result, ok, ◌>>=◌}
use custom_domain.Model.{DomainStatus, Application, Domain, is_deleted, status_eq}
use custom_domain.Hostname.{Libraries, canonicalize}
use custom_domain.Registry.Tables.{Store}
use custom_domain.Registry.Claim.{canonical_or_raise}

abbrev pub default_page_size : ℕ
default_page_size = 50

abbrev pub max_page_size : ℕ
max_page_size = 200

abbrev pub matches_reference : Option Text → Domain → Bool
matches_reference none d = true
matches_reference (some reference) d = text_eq d.reference reference

abbrev pub matches_status : Option DomainStatus → Domain → Bool
matches_status none d = true
matches_status (some status) d = status_eq d.status status

-- The WHERE clause of `_list_query`.
abbrev pub listed : ℕ → Option Text → Option DomainStatus → Bool → Domain → Bool
listed application_id reference status include_deleted d =
    (include_deleted || not (is_deleted d))
    && d.application_id == application_id
    && matches_reference reference d
    && matches_status status d

-- ORDER BY created_at, id
abbrev pub comes_before : Domain → Domain → Bool
comes_before a b = ltb a.created_at b.created_at || a.created_at == b.created_at && leb a.id b.id

unfoldable pub insert_row : Domain → List Domain → List Domain
insert_row d [] = d ∷ []
insert_row d (e ∷ es) = if comes_before d e then d ∷ e ∷ es else e ∷ insert_row d es

unfoldable pub order_rows : List Domain → List Domain
unfolding insert_row
order_rows [] = []
order_rows (d ∷ ds) = insert_row d (order_rows ds)

unfoldable pub list_query :
    Application → Option Text → Option DomainStatus → Bool → Store → List Domain
unfolding order_rows
list_query application reference status include_deleted store =
    order_rows (select (listed application.id reference status include_deleted) store.domains)

-- `max(1, min(limit, MAX_PAGE_SIZE))`; a negative limit or offset is clamped as 0 is.
abbrev pub clamp_limit : ℕ → ℕ
clamp_limit limit = max 1 (min limit max_page_size)

-- One page of a query, with a row of lookahead.
unfoldable pub page : ℕ → ℕ → List Domain → List Domain × Bool
page limit offset query =
    let rows = take (clamp_limit limit + 1) (drop offset query) in
    (take (clamp_limit limit) rows, ltb (clamp_limit limit) (length rows))

unfoldable pub page_domains :
    Application → Option Text → Option DomainStatus → Bool → ℕ → ℕ → Store → List Domain × Bool
unfolding page list_query
page_domains application reference status include_deleted limit offset store =
    page limit offset (list_query application reference status include_deleted store)

unfoldable pub list_domains :
    Application → Option Text → Option DomainStatus → Bool → ℕ → ℕ → Store → List Domain
unfolding page_domains
list_domains application reference status include_deleted limit offset store =
    (page_domains application reference status include_deleted limit offset store).0

module _ (libs : Libraries) where
  -- The edge's lookup, given a canonical name.
  abbrev pub live_row : Text → List Domain → Option Domain
  live_row hostname rows = first (λ d. not (is_deleted d) && text_eq d.hostname hostname) rows

  unfoldable pub find_live_by_hostname : Text → Store → Result (Option Domain)
  find_live_by_hostname hostname store = do
    canonical ← canonical_or_raise (canonicalize libs (some hostname) false)
    ok (live_row canonical store.domains)
