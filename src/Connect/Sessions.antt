-- ===== src/Connect/Sessions.antt =====
-- app/services/connect_sessions.py. SHA-256, the random token, and what is wrong with a return address are parameters; only the
-- token of the page's address is kept, and the lock serialises the calls.
use custom_domain.Common.{
  ℕ, suc, ◌+◌, ◌-◌, ◌==◌, Bool, true, false, not, ◌&&◌, ◌||◌, Option, none, some, is_none, is_some,
  List, [], ◌∷◌, ◌++◌, select, first, update, count, any, all, length, ltb, leb, min, Text, text_eq,
  strip, Time, seconds, minutes, hours, ceil_seconds, if◌then◌else◌,
}
use custom_domain.Errors.{
  Result, ok, ◌>>=◌, ◌>>◌, raise_if, or_raise, rate_limit, invalid_connect_request,
  connect_page_unavailable, connect_session_not_found,
}
use custom_domain.Model.{Application, Domain, is_deleted, is_active_status}
use custom_domain.Hostname.{drop_newline}
use custom_domain.Registry.{Store, get_domain}

pub record ConnectSession : Type 0 where
  pub id : ℕ
  pub application_id : ℕ
  pub domain_id : ℕ
  pub token_hash : Text
  pub expires_at : Time
  pub revoked_at : Option Time
  pub app_name : Option Text
  pub return_url : Option Text
  pub created_at : Time

-- The tables that a setup page reads and writes.
pub record Pages : Type 0 where
  pub store : Store
  pub sessions : List ConnectSession
  pub next_id : ℕ

abbrev pub default_ttl : Time
default_ttl = hours 24

abbrev pub min_ttl : Time
min_ttl = minutes 5

abbrev pub max_ttl : Time
max_ttl = hours 24

abbrev pub session_window : Time
session_window = hours 1

abbrev pub domain_max_per_window : ℕ
domain_max_per_window = 20

abbrev pub application_max_per_window : ℕ
application_max_per_window = 600

abbrev pub max_app_name : ℕ
max_app_name = 64

abbrev pub token_bytes : ℕ
token_bytes = 32

abbrev pub is_url_safe : ℕ → Bool
is_url_safe c =
    leb b'A' c && leb c b'Z'
    || leb b'a' c && leb c b'z'
    || leb b'0' c && leb c b'9'
    || c == b'_'
    || c == b'-'

-- `TOKEN.match(token)`; a newline may follow the token.
unfoldable pub is_token : Text → Bool
is_token token = full token || full (drop_newline token)
  where
    full : Text → Bool
    full t = length t == 43 && all is_url_safe t

abbrev pub is_control : ℕ → Bool
is_control c = ltb c 32 || leb 127 c && ltb c 160

-- `app_name_problem`
unfoldable pub app_name_problem : Text → Bool
app_name_problem value =
    text_eq (strip value) [] || ltb max_app_name (length value) || any is_control value

abbrev pub bad : (Text → Bool) → Option Text → Bool
bad problem none = false
bad problem (some value) = problem value

abbrev pub stripped : Option Text → Option Text
stripped none = none
stripped (some value) = some (strip value)

abbrev pub ttl_of : Option ℕ → Time
ttl_of none = default_ttl
ttl_of (some n) = seconds n

unfoldable pub oldest_session : List ConnectSession → Option Time
oldest_session [] = none
oldest_session (r ∷ rs) = elim (oldest_session rs) [
  | none ↦ some r.created_at
  | some t ↦ some (min r.created_at t)
]

abbrev pub wait_after : Option Time → Time → ℕ
wait_after none now = 60
wait_after (some t) now = ceil_seconds (t + session_window - now)

-- One round of the loop of `_enforce_limits`.
abbrev pub enforce_scope :
    (ConnectSession → Bool) → ℕ → Time → List ConnectSession → Result (Unit {0})
enforce_scope condition limit now sessions =
    let recent = λ (r : ConnectSession). condition r && ltb now (r.created_at + session_window) in
    raise_if (leb limit (count recent sessions))
      (rate_limit (wait_after (oldest_session (select recent sessions)) now))

unfoldable pub enforce_session_limits : Domain → Time → List ConnectSession → Result (Unit {0})
enforce_session_limits d now sessions =
    enforce_scope (λ r. r.domain_id == d.id) domain_max_per_window now sessions
    >> enforce_scope (λ r. r.application_id == d.application_id) application_max_per_window now
        sessions

abbrev pub put_session : ConnectSession → List ConnectSession → List ConnectSession
put_session r rows = update (λ q. q.id == r.id) (λ _. r) rows

unfoldable pub ended : Time → ConnectSession → ConnectSession
ended now r = record r { revoked_at = elim r.revoked_at [ none ↦ some now | some at ↦ some at ] }

unfoldable pub revoke_session : Application → ℕ → ℕ → Time → Pages → Result (ConnectSession × Pages)
revoke_session application domain_id session_id now pages = do
  d ← get_domain application domain_id true pages.store
  r ←
      or_raise
        (first
          (λ q. q.id == session_id && q.domain_id == d.id && q.application_id == application.id)
          pages.sessions)
        connect_session_not_found
  ok (ended now r, record pages { sessions = put_session (ended now r) pages.sessions })

-- The domain and the application of a session are still live.
unfoldable pub is_page_live : ConnectSession → Store → Bool
is_page_live r store =
    any (λ d. d.id == r.domain_id && d.application_id == r.application_id && not (is_deleted d))
      store.domains
    && any (λ a. a.id == r.application_id && is_active_status a.status && is_none a.deleted_at)
        store.applications

abbrev pub opened : Time → Store → Option ConnectSession → Option ConnectSession
opened now store none = none
opened now store (some r) =
    if is_some r.revoked_at || leb r.expires_at now || not (is_page_live r store)
    then none
    else some r

module _ (sha256_hex : Text → Text) where
  unfoldable pub open_session : Text → Time → Pages → Option ConnectSession
  open_session token now pages =
      if not (is_token token)
      then none
      else opened now pages.store
          (first (λ r. text_eq r.token_hash (sha256_hex token)) pages.sessions)

module _ (sha256_hex : Text → Text) (token_urlsafe : ℕ → ℕ → Text) (url_problem : Text → Bool) where
  abbrev pub new_session :
      Application → Domain → Text → Time → Option Text → Option Text → Time → ℕ → ConnectSession
  new_session application d token ttl app_name return_url now id = record {
    id = id;
    application_id = application.id;
    domain_id = d.id;
    token_hash = sha256_hex token;
    expires_at = now + ttl;
    revoked_at = none;
    app_name = stripped app_name;
    return_url = return_url;
    created_at = now;
  }

  -- Returns the row and the token.
  unfoldable pub create_session :
      Application
      → ℕ
      → Bool
      → Option ℕ
      → Option Text
      → Option Text
      → Time
      → Pages
      → Result ((ConnectSession × Text) × Pages)
  create_session application domain_id has_base_url ttl_seconds app_name return_url now pages =
      let ttl = ttl_of ttl_seconds in
      let token = token_urlsafe token_bytes pages.next_id in
      do
        raise_if (not (leb min_ttl ttl && leb ttl max_ttl)) invalid_connect_request
        raise_if (bad app_name_problem app_name) invalid_connect_request
        raise_if (bad url_problem return_url) invalid_connect_request
        d ← get_domain application domain_id false pages.store
        raise_if (not has_base_url) connect_page_unavailable
        enforce_session_limits d now pages.sessions
        let r = new_session application d token ttl app_name return_url now pages.next_id
        ok (
          (r, token),
          record pages { sessions = pages.sessions ++ r ∷ []; next_id = suc pages.next_id },
        )
