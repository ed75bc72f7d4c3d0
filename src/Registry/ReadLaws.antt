-- ===== src/Registry/ReadLaws.antt =====
-- What the reads return, and to whom.
use custom_domain.Common.{
  ℕ, zero, suc, ◌+◌, ◌≤◌, ◌<◌, ◌≡◌, refl, ap, Bool, true, not, ◌||◌, Option, List, [], ◌∷◌, ◌++◌,
  select, take, drop, length, length-take, length-drop, take-take, Text, arith, All, All-take,
  All-drop, All-select_of, first_sound, ◌↔◌,
}
use custom_domain.Errors.{ok}
use custom_domain.Model.{DomainStatus, Application, Domain, is_deleted}
use custom_domain.Registry.Tables.{Store, visible, get_domain}
use custom_domain.Registry.Reads.{
  listed, insert_row, order_rows, list_query, clamp_limit, page, page_domains,
}
use custom_domain.Registry.Sound.{get_domain_ok}

take-append-drop : (n : ℕ) (xs : List Domain) → take n xs ++ drop n xs ≡ xs
take-append-drop zero xs = refl
take-append-drop (suc n) [] = refl
take-append-drop (suc n) (x ∷ xs) = ap (λ l. x ∷ l) (take-append-drop n xs)

drop-drop : (m n : ℕ) (xs : List Domain) → drop n (drop m xs) ≡ drop (m + n) xs
drop-drop zero n xs = let e : 0 + n ≡ n = omega arith in rw e refl
drop-drop (suc m) zero [] = let e : suc m + 0 ≡ suc m = omega arith in rw e refl
drop-drop (suc m) (suc n) [] = let e : suc m + suc n ≡ suc (m + suc n) = omega arith in rw e refl
drop-drop (suc m) n (x ∷ xs) =
    let e : suc m + n ≡ suc (m + n) = omega arith in rw e (drop-drop m n xs)

-- One page holds at most 200 rows, which are the rows of the query from the offset on, in its
-- order, up to the page length, and `has_more` holds exactly when the query has rows past the
-- page.
pub page_lem :
    (limit offset : ℕ) (query : List Domain)
    → (length (page limit offset query).0 ≤ 200)
      × ((page limit offset query).0 ++ drop (offset + clamp_limit limit) query ≡ drop offset query)
      × (((page limit offset query).1 ≡ true) ↔ (offset + clamp_limit limit < length query))
unfolding page
page_lem limit offset query =
    let n = clamp_limit limit in
    let rest = drop offset query in
    let cut : take n (take (n + 1) rest) ≡ take n rest = take-take n 1 rest in
    (
      rw cut (omega (arith, length-take n rest)),
      rw (cut, ← drop-drop offset n query) (take-append-drop n rest),
      (
        (λ h. ground (arith, length-take (n + 1) rest, length-drop offset query)),
        (λ h. ground (arith, length-take (n + 1) rest, length-drop offset query)),
      ),
    )

insert_row-All {κ} :
    (P : Domain → Type κ) (d : Domain) (ds : List Domain) → P d → All P ds → All P (insert_row d ds)
unfolding insert_row
insert_row-All P d [] p a = (p, tt)
insert_row-All P d (e ∷ es) p (h, a) = ground (arith, insert_row-All P d es p a)

order_rows-All {κ} : (P : Domain → Type κ) (ds : List Domain) → All P ds → All P (order_rows ds)
unfolding order_rows
order_rows-All P [] a = tt
order_rows-All P (d ∷ ds) (h, a) = insert_row-All P d (order_rows ds) h (order_rows-All P ds a)

-- A page shows rows of the calling application only, and deleted ones only if they were asked for.
pub page_domains-isolated :
    (a : Application) (reference : Option Text) (status : Option DomainStatus) (deleted : Bool)
    (limit offset : ℕ) (store : Store)
    → All
        (λ d. (d.application_id ≡ a.id) × ((deleted || not (is_deleted d)) ≡ true))
        (page_domains a reference status deleted limit offset store).0
unfolding page_domains page list_query
page_domains-isolated a reference status deleted limit offset store =
    let P = λ (d : Domain). (d.application_id ≡ a.id) × ((deleted || not (is_deleted d)) ≡ true) in
    let p = listed a.id reference status deleted in
    All-take P (clamp_limit limit) _ (
      All-take P (clamp_limit limit + 1) _ (
        All-drop P offset _ (
          order_rows-All P (select p store.domains)
            (All-select_of P p store.domains (λ d h. (ground arith, ground arith))))))

-- A lookup by identifier that succeeds returns a row with that identifier of the calling
-- application, and a deleted one only if it was asked for.
pub get_domain-isolated :
    (a : Application) (id : ℕ) (deleted : Bool) (store : Store) {d : Domain}
    → get_domain a id deleted store ≡ ok d
    → (d.id ≡ id) × (d.application_id ≡ a.id) × ((deleted || not (is_deleted d)) ≡ true)
get_domain-isolated a id deleted store h =
    let s =
      first_sound (visible a.id id deleted) store.domains (get_domain_ok a id deleted store h) in
    (ground arith, ground arith, ground arith)
