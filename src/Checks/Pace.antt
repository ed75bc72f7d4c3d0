-- ===== src/Checks/Pace.antt =====
-- When a check runs again.
use custom_domain.Common.{
  ℕ, zero, suc, ◌+◌, ◌-◌, ◌≤◌, ◌<◌, ◌≡◌, refl, true, false, Option, some, List, [], ◌∷◌, arith,
  length, All, min, Time, minutes, hours,
}
use custom_domain.Model.{DomainCheck}
use custom_domain.Checks.Outcomes.{Outcome, passing}
use custom_domain.Checks.Schedule.{
  backoff, entry, schedule_next, previous_details, previous_attempts, previous_failing_since,
}

entry-All {κ} :
    (P : Time → Type κ) (index : ℕ) (ts : List Time)
    → All P ts
    → index < length ts
    → P (entry index ts)
unfolding entry
entry-All P index [] a h = absurd (omega arith)
entry-All P zero (t ∷ ts) a h = a.0
entry-All P (suc index) (t ∷ ts) a h = entry-All P index ts a.1 (omega arith)

abbrev Paced : Time → Type 0
Paced t = (minutes 1 ≤ t) × (t ≤ hours 1)

backoff-Paced : All Paced backoff
backoff-Paced = (
  (omega arith, omega arith),
  (
    (omega arith, omega arith),
    (
      (omega arith, omega arith),
      ((omega arith, omega arith), ((omega arith, omega arith), ((omega arith, omega arith), tt))),
    ),
  ),
)

pub schedule_next_lem :
    (c : Option DomainCheck) (o : Outcome) (now : Time)
    → let next = (schedule_next c o now).0 in
      let details = (schedule_next c o now).1 in
      let previous = previous_details c in
      (passing o ≡ true
        → (next ≡ now + hours 6)
          × (details.attempts ≡ some 0)
          × (details.failing_since ≡ o.details.failing_since))
      × (passing o ≡ false
          → (now + minutes 1 ≤ next)
            × (next ≤ now + hours 1)
            × (details.attempts ≡ some (previous_attempts previous + 1))
            × (details.failing_since ≡ some (previous_failing_since previous now)))
unfolding schedule_next
schedule_next_lem c o now =
    let previous = previous_attempts (previous_details c) in
    let paced = entry-All Paced (min (previous + 1) 6 - 1) backoff backoff-Paced (omega arith) in
    (
      λ h. rw h (refl, refl, refl),
      λ h. rw h (omega (arith, paced.0), omega (arith, paced.1), refl, refl),
    )
