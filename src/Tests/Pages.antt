-- ===== src/Tests/Pages.antt =====
-- The theorem on connect sessions at a concrete page.
use custom_domain.Common.{
  ℕ, Bool, ◌+◌, ◌≤◌, ◌≡◌, refl, true, false, none, some, [], Text, Time, codes, minutes, hours, leb,
  strip, if◌then◌else◌,
}
use custom_domain.Errors.{ok}
use custom_domain.Model.{is_deleted}
use custom_domain.Hostname.{drop_newline}
use custom_domain.Registry.{get_domain}
use custom_domain.Connect.Sessions.{
  ConnectSession, Pages, is_token, create_session, open_session, app_name_problem,
  enforce_session_limits,
}
use custom_domain.Connect.SessionLaws.{create_session-open_session}
use custom_domain.Tests.Data.{now, app, served}

abbrev sha256_hex : Text → Text
sha256_hex t = t

abbrev link : ℕ → ℕ → Text
link bytes draw = codes "0123456789abcdefghijklmnopqrstuvwxyz-_ABCDE"

abbrev url_problem : Text → Bool
url_problem url = false

abbrev pages : Pages
pages = record { store = served; sessions = []; next_id = 30 }

creating :
    (out : (ConnectSession × Text) × Pages) × (create_session sha256_hex link url_problem app 4 true
        (some 3600)
        (some (codes "Acme"))
        none
        now
        pages
      ≡ ok out)
    × (is_token out.0.1 ≡ true)
unfolding create_session get_domain is_deleted app_name_problem strip enforce_session_limits
    is_token drop_newline
creating = (_, refl, refl)

create_session-open_session_example :
    ((at : Time)
      → open_session sha256_hex creating.0.0.1 at creating.0.1
        ≡ (if leb creating.0.0.0.expires_at at then none else some creating.0.0.0))
    × (now + minutes 5 ≤ creating.0.0.0.expires_at)
    × (creating.0.0.0.expires_at ≤ now + hours 24)
create_session-open_session_example =
    create_session-open_session sha256_hex link url_problem app 4 true (some 3600)
      (some (codes "Acme")) none now pages creating.1 refl creating.2 tt
