-- ===== src/Checks/Schedule.antt =====
-- app/services/dns_checks.py: when a check runs again; and the fast rechecks of app/services/domain_connect.py.
use custom_domain.Common.{
  ℕ, zero, suc, ◌+◌, ◌-◌, Bool, false, not, ◌&&◌, Option, none, some, List, [], ◌∷◌, ltb, leb,
  length, min, Time, seconds, minutes, hours, if◌then◌else◌,
}
use custom_domain.Model.{Details, DomainCheck, Domain}
use custom_domain.Checks.Outcomes.{Outcome, passing}

-- BACKOFF
abbrev pub backoff : List Time
backoff = minutes 1 ∷ minutes 2 ∷ minutes 5 ∷ minutes 15 ∷ minutes 30 ∷ hours 1 ∷ []

-- `BACKOFF[index]`; the value past the end is never read.
unfoldable pub entry : ℕ → List Time → Time
entry index [] = 0
entry zero (t ∷ ts) = t
entry (suc index) (t ∷ ts) = entry index ts

abbrev pub revalidate_interval : Time
revalidate_interval = hours 6

abbrev pub ownership_loss_grace : Time
ownership_loss_grace = hours 24

-- `check.details or {}`, and the keys read from it.
abbrev pub previous_details : Option DomainCheck → Option Details
previous_details none = none
previous_details (some c) = c.details

abbrev pub previous_attempts : Option Details → ℕ
previous_attempts none = 0
previous_attempts (some details) = elim details.attempts [ none ↦ 0 | some n ↦ n ]

abbrev pub previous_failing_since : Option Details → Time → Time
previous_failing_since none now = now
previous_failing_since (some details) now = elim details.failing_since [ none ↦ now | some t ↦ t ]

unfoldable pub schedule_next : Option DomainCheck → Outcome → Time → Time × Details
schedule_next check outcome now =
    let previous = previous_details check in
    let attempts = previous_attempts previous + 1 in
    let passed : Details = record outcome.details { attempts = some 0 } in
    let failed : Details = record outcome.details {
      attempts = some attempts;
      failing_since = some (previous_failing_since previous now);
    } in
    if passing outcome
    then (now + revalidate_interval, passed)
    else (now + entry (min attempts (length backoff) - 1) backoff, failed)

abbrev pub fast_recheck_window : Time
fast_recheck_window = minutes 30

abbrev pub fast_recheck_interval : Time
fast_recheck_interval = seconds 30

-- The time since a link was issued is between 0 and the window.
unfoldable pub fast_recheck_due : Domain → Time → Bool
fast_recheck_due d now = elim d.connect_started_at [
  | none ↦ false
  | some started ↦ leb started now && ltb now (started + fast_recheck_window)
]

-- The time of the next attempt as `apply_dns_outcomes` chooses it.
unfoldable pub next_attempt : Bool → Time → Outcome → Time → Time
next_attempt fast next_at outcome now =
    if fast && not (passing outcome) then min next_at (now + fast_recheck_interval) else next_at
