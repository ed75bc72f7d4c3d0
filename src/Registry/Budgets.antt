-- ===== src/Registry/Budgets.antt =====
-- The budgets of registrations and rechecks, and the waiting time they tell.
use custom_domain.Common.{
  ℕ, ◌+◌, ◌-◌, ◌≤◌, ◌<◌, ◌≡◌, refl, inl, inr, none, some, List, [], ◌∷◌, select, count, min, max,
  leb, Time, seconds, ceil_seconds, ceil_seconds-covers, arith, Bool-cases, Option-cases, ◌⊎◌,
}
use custom_domain.Errors.{Error, ok, err}
use custom_domain.Model.{EventType, DomainEvent}
use custom_domain.Registry.Limits.{in_window, oldest, enforce_window}

module _ (application_id : ℕ) (t : EventType) (window : Time) where
  abbrev recent_count : Time → List DomainEvent → ℕ
  recent_count now events = count (in_window application_id t window now) events

  count-later :
      (now later : Time) (events : List DomainEvent)
      → now ≤ later
      → recent_count later events ≤ recent_count now events
  count-later now later [] h = omega arith
  count-later now later (e ∷ es) h = ground (arith, count-later now later es h)

  -- Once the oldest event of the window is past it, there are fewer.
  oldest_leaves :
      (now later first_at : Time) (events : List DomainEvent)
      → now ≤ later
      → oldest (select (in_window application_id t window now) events) ≡ some first_at
      → first_at + window ≤ later
      → recent_count later events < recent_count now events
  unfolding oldest
  oldest_leaves now later first_at [] h o p = cc
  oldest_leaves now later first_at (e ∷ es) h o p =
      let rest = oldest (select (in_window application_id t window now) es) in
      elim (Bool-cases (in_window application_id t window now e)) [
        | inr f ↦ ground (arith, oldest_leaves now later first_at es h (rw (f, oldest) at o) p)
        | inl y ↦ elim (Option-cases rest) [
          | inl none_left ↦
              let same : some e.created_at ≡ some first_at = rw (y, oldest, none_left) at o in
              ground (arith, count-later now later es h)
          | inr (at, found) ↦
              let same : some (min e.created_at at) ≡ some first_at = rw (y, oldest, found) at o in
              ground (arith, count-later now later es h, oldest_leaves now later first_at es h)
        ]
      ]

  oldest-none :
      (now : Time) (events : List DomainEvent)
      → oldest (select (in_window application_id t window now) events) ≡ none
      → recent_count now events ≡ 0
  unfolding oldest
  oldest-none now [] h = refl
  oldest-none now (e ∷ es) h = elim (Bool-cases (in_window application_id t window now e)) [
    | inr f ↦ rw f (oldest-none now es (rw (f, oldest) at h))
    | inl y ↦ elim (Option-cases (oldest (select (in_window application_id t window now) es))) [
      | inl none_left ↦ absurd (let q = rw (y, oldest, none_left) at h in cc)
      | inr (at, found) ↦ absurd (let q = rw (y, oldest, found) at h in cc)
    ]
  ]

  -- A budget of at least one event in the window lets a further event through exactly when fewer than that many are in the
  -- window. A refusal tells to wait a positive number of seconds, after which fewer events are in the window, if none were added.
  pub enforce_window_lem :
      (limit : ℕ) (now : Time) (events : List DomainEvent)
      → 1 ≤ limit
      → ((recent_count now events < limit)
          × (enforce_window application_id t window limit now events ≡ ok tt))
        ⊎ ((limit ≤ recent_count now events)
            × (wait : ℕ) × (enforce_window application_id t window limit now events
                ≡ err (Error.rate_limited wait))
            × (1 ≤ wait)
            × ((later : Time)
                → now + seconds wait ≤ later
                → recent_count later events < recent_count now events))
  unfolding enforce_window
  enforce_window_lem limit now events l = elim (Bool-cases (leb limit (recent_count now events))) [
    | inr f ↦ inl (ground arith, rw f refl)
    | inl y ↦ elim (Option-cases (oldest (select (in_window application_id t window now) events))) [
      | inl none_left ↦ absurd (let z = oldest-none now events none_left in ground arith)
      | inr (at, found) ↦ inr (
        ground arith,
        max 1 (ceil_seconds (at + window - now)),
        rw (y, found) refl,
        omega arith,
        λ later h.
            oldest_leaves now later at events (omega arith) found
              (omega (arith, ceil_seconds-covers (at + window - now))),
      )
    ]
  ]
