-- ===== src/Edge/RouteLaws.antt =====
-- Laws of `serveable_route_groups` of app/edge/config.py.
use custom_domain.Common.{
  ℕ, if◌then◌else◌, ◌+◌, ◌==◌, ◌≤◌, ◌≡◌, refl, sym, ap, ◌∙◌, inl, inr, Bool, true, false, ◌&&◌,
  Option, none, some, is_some, List, [], ◌∷◌, select, any, count, Text, text_eq, arith, Bool-cases,
  ==_iff,
}
use custom_domain.Model.{Application, VerifiedOrigin, Domain, serving_origin, is_active_status}
use custom_domain.Registry.{Store}
use custom_domain.Registry.Sound.{IsRegistry}
use custom_domain.Registry.Steps.{live_named, one_live_row}
use custom_domain.Edge.Routes.{
  RouteGroup, routable, sort_by, pinned_dial, group_of, is_queried, routed_names, group_for,
  groups_of, serveable_route_groups,
}
use custom_domain.Edge.Sums.{
  count-sort_by, count-select, count-map, count-same, count-le, count-false, total, total-sort_by,
  total-select, total-append,
}

abbrev pub hosts : Text → RouteGroup → ℕ
hosts h g = count (λ t. text_eq t h) g.hostnames

module _ (collate : Text → Text → Bool) (resolve : Text → ℕ → Option (List Text))
    (dial_before : Text → Text → Bool) where
  -- The origin of an application is verified, active, and has an address to dial.
  abbrev pub reachable : Option VerifiedOrigin → Bool
  reachable none = false
  reachable (some o) = is_some (pinned_dial collate resolve dial_before o.host o.port)

  -- A row that should be routed, and for whom.
  abbrev pub is_routed : Application → Domain → Bool
  is_routed a d = reachable (serving_origin a) && (d.application_id == a.id && routable (some a) d)

  abbrev in_query : Text → Application → Domain → Bool
  in_query h a d =
      is_queried collate resolve dial_before a d && (routable (some a) d && text_eq d.hostname h)

  count-routed_names :
      (h : Text) (a : Application) (rows : List Domain)
      → count (λ t. text_eq t h) (routed_names collate resolve dial_before a rows)
        ≡ count (in_query h a) rows
  count-routed_names h a rows =
      let before = λ (d e : Domain). collate d.hostname e.hostname in
      let queried = select (is_queried collate resolve dial_before a) rows in
      count-map (λ d. d.hostname) (λ t. text_eq t h)
        (select (routable (some a)) (sort_by before queried))
      ∙ count-select (λ d. text_eq d.hostname h) (routable (some a)) (sort_by before queried)
      ∙ count-sort_by before (λ d. routable (some a) d && text_eq d.hostname h) queried
      ∙ count-select (λ d. routable (some a) d && text_eq d.hostname h)
          (is_queried collate resolve dial_before a) rows

  total-group_of :
      (h : Text) (a : Application) (o : VerifiedOrigin) (names : List Text) (dial : Option Text)
      → total (hosts h) (group_of collate resolve dial_before a o names dial)
        ≡ (if is_some dial then count (λ t. text_eq t h) names else 0)
  total-group_of h a o names none = refl
  total-group_of h a o [] (some dial) = refl
  total-group_of h a o (t ∷ ts) (some dial) = omega arith

  routed_as : Text → Application → Domain → Bool
  routed_as h a d = is_routed a d && text_eq d.hostname h

  total-group_for :
      (h : Text) (a : Application) (rows : List Domain) (o : Option VerifiedOrigin)
      → total (hosts h) (group_for collate resolve dial_before a rows o)
        ≡ (if reachable o then count (in_query h a) rows else 0)
  total-group_for h a rows none = refl
  total-group_for h a rows (some o) =
      let names = routed_names collate resolve dial_before a rows in
      let dial = pinned_dial collate resolve dial_before o.host o.port in
      total-group_of h a o names dial
      ∙ ap (λ n. if is_some dial then n else 0) (count-routed_names h a rows)

  in_query-routed_as :
      (h : Text) (a : Application) (d : Domain)
      → reachable (serving_origin a) ≡ true
      → in_query h a d ≡ routed_as h a d
  unfolding routed_as routable
  in_query-routed_as h a d r = ground arith

  total-routed_as :
      (h : Text) (a : Application) (rows : List Domain)
      → total (hosts h) (group_for collate resolve dial_before a rows (serving_origin a))
        ≡ count (routed_as h a) rows
  unfolding routed_as
  total-routed_as h a rows = elim (Bool-cases (reachable (serving_origin a))) [
    | inl t ↦
        total-group_for h a rows (serving_origin a)
        ∙ rw t (count-same (in_query h a) (routed_as h a) rows (λ d. in_query-routed_as h a d t))
    | inr f ↦
        total-group_for h a rows (serving_origin a)
        ∙ rw f (sym (count-false (routed_as h a) rows (λ d. rw f refl)))
  ]

  total-groups_of :
      (h : Text) (apps : List Application) (rows : List Domain)
      → total (hosts h) (groups_of collate resolve dial_before apps rows)
        ≡ total (λ a. count (routed_as h a) rows) apps
  total-groups_of h [] rows = refl
  total-groups_of h (a ∷ rest) rows = omega (
    arith,
    total-append (hosts h) (group_for collate resolve dial_before a rows (serving_origin a))
        (groups_of collate resolve dial_before rest rows),
    total-routed_as h a rows,
    total-groups_of h rest rows,
  )

  inactive_unmatched :
      (h : Text) (a : Application) (d : Domain)
      → is_active_status a.status ≡ false
      → routed_as h a d ≡ false
  unfolding routed_as routable
  inactive_unmatched h a d f = ground arith

  total-groups :
      (h : Text) (store : Store)
      → total (hosts h) (serveable_route_groups collate resolve dial_before store)
        ≡ total (λ a. count (routed_as h a) store.domains) store.applications
  unfolding serveable_route_groups
  total-groups h store =
      let before = λ (a b : Application). collate a.slug b.slug in
      let active = λ (a : Application). is_active_status a.status in
      let f = λ (a : Application). count (routed_as h a) store.domains in
      total-groups_of h (sort_by before (select active store.applications)) store.domains
      ∙ total-sort_by before f (select active store.applications)
      ∙ total-select f active store.applications
          (λ a n. count-false (routed_as h a) store.domains (λ d. inactive_unmatched h a d n))

  -- No two applications have one identifier.
  abbrev pub UniqueIds : List Application → Type 0
  UniqueIds apps = (i : ℕ) → count (λ a. a.id == i) apps ≤ 1

  any-count :
      (p : Application → Bool) (apps : List Application)
      → count p apps ≤ 1
      → count p apps ≡ (if any p apps then 1 else 0)
  any-count p [] h = refl
  any-count p (a ∷ rest) h = ground (arith, any-count p rest)

  routed_as-own :
      (h : Text) (a : Application) (d : Domain)
      → routed_as h a d ≡ true
      → (a.id == d.application_id) ≡ true
  unfolding routed_as
  routed_as-own h a d m = ground (arith, ==_iff d.application_id a.id, ==_iff a.id d.application_id)

  one_match :
      (h : Text) (apps : List Application) (d : Domain)
      → UniqueIds apps
      → count (λ a. routed_as h a d) apps ≡ (if any (λ a. routed_as h a d) apps then 1 else 0)
  one_match h apps d u =
      any-count (λ a. routed_as h a d) apps
        (omega (
          arith,
          count-le (λ a. routed_as h a d) (λ a. a.id == d.application_id) apps
              (λ a. routed_as-own h a d),
          u d.application_id,
        ))

  total-cons :
      (h : Text) (apps : List Application) (d : Domain) (ds : List Domain)
      → total (λ a. count (routed_as h a) (d ∷ ds)) apps
        ≡ count (λ a. routed_as h a d) apps + total (λ a. count (routed_as h a) ds) apps
  total-cons h [] d ds = refl
  total-cons h (a ∷ rest) d ds = ground (arith, total-cons h rest d ds)

  total-rows :
      (h : Text) (apps : List Application) (rows : List Domain)
      → UniqueIds apps
      → total (λ a. count (routed_as h a) rows) apps
        ≡ count (λ d. any (λ a. routed_as h a d) apps) rows
  total-rows h [] [] u = refl
  total-rows h (a ∷ rest) [] u = total-nil (a ∷ rest)
    where
      total-nil : (as' : List Application) → total (λ a. count (routed_as h a) []) as' ≡ 0
      total-nil [] = refl
      total-nil (a ∷ rest) = omega (arith, total-nil rest)
  total-rows h apps (d ∷ ds) u =
      ground (arith, total-cons h apps d ds, one_match h apps d u, total-rows h apps ds u)

  matched_live :
      (h : Text) (apps : List Application) (d : Domain)
      → any (λ a. routed_as h a d) apps ≡ true
      → live_named h d ≡ true
  unfolding routed_as routable
  matched_live h [] d m = absurd (ground arith)
  matched_live h (a ∷ rest) d m = ground (arith, matched_live h rest d)

  -- In a sound database where no two applications have one identifier, the routes of the edge list a hostname as often as there
  -- are rows with the hostname that are routable for an application, their own, whose serving origin has an address to dial; and
  -- that is at most once.
  pub route_groups_lem :
      (h : Text) (store : Store)
      → IsRegistry store
      → UniqueIds store.applications
      → let listings = total (hosts h) (serveable_route_groups collate resolve dial_before store) in
        (listings
          ≡ count
              (λ d. any (λ a. is_routed a d && text_eq d.hostname h) store.applications)
              store.domains)
        × (listings ≤ 1)
  unfolding routed_as
  route_groups_lem h store r u =
      let e = total-groups h store ∙ total-rows h store.applications store.domains u in
      (
        e,
        omega (
          arith,
          e,
          one_live_row h store.domains r.distinct,
          count-le (λ d. any (λ a. routed_as h a d) store.applications) (live_named h) store.domains
              (λ d. matched_live h store.applications d),
        ),
      )
