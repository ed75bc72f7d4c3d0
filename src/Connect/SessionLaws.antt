-- ===== src/Connect/SessionLaws.antt =====
-- Laws of `create_session` and `open_session` of app/services/connect_sessions.py.
use custom_domain.Common.{
  ℕ, ◌+◌, ◌==◌, ==_refl, ◌≤◌, ◌≡◌, refl, ap, inl, inr, Bool, true, false, not, ◌&&◌, Option, none,
  some, is_none, is_some, List, [], ◌∷◌, ◌++◌, first, any, leb, Text, text_eq, text_eq_refl, Time,
  minutes, hours, if◌then◌else◌, All, arith, Bool-cases,
}
use custom_domain.Errors.{ok, raise_if, >>=-ok, invalid_connect_request, connect_page_unavailable}
use custom_domain.Model.{Application, Domain, is_deleted, is_active_status}
use custom_domain.Registry.{Store, get_domain, visible}
use custom_domain.Registry.Sound.{get_domain_ok}
use custom_domain.Connect.Sessions.{
  ConnectSession, Pages, min_ttl, max_ttl, ttl_of, is_token, is_page_live, opened, open_session,
  new_session, create_session, bad, app_name_problem, enforce_session_limits,
}

first-append :
    (h : Text) (r : ConnectSession) (rows : List ConnectSession)
    → All (λ q. text_eq q.token_hash h ≡ false) rows
    → text_eq r.token_hash h ≡ true
    → first (λ q. text_eq q.token_hash h) (rows ++ r ∷ []) ≡ some r
first-append h r [] fresh t = rw t refl
first-append h r (q ∷ qs) (f, fresh) t = rw f (first-append h r qs fresh t)

found_any :
    (a : Application) (id : ℕ) (d : Domain) (rows : List Domain)
    → first (visible a.id id false) rows ≡ some d
    → any (λ e. e.id == d.id && e.application_id == a.id && not (is_deleted e)) rows ≡ true
found_any a id d [] h = absurd (ground arith)
found_any a id d (e ∷ es) h = elim (Bool-cases (visible a.id id false e)) [
  | inl t ↦
      let same : some e ≡ some d = rw t at h in
      let v : visible a.id id false d ≡ true = ground arith in ground (arith, ==_refl d.id)
  | inr f ↦ ground (arith, found_any a id d es (rw f at h))
]

opened_until :
    (at : Time) (r : ConnectSession) (store : Store)
    → is_some r.revoked_at ≡ false
    → is_page_live r store ≡ true
    → opened at store (some r) ≡ (if leb r.expires_at at then none else some r)
opened_until at r store kept live = rw (kept, live) (ground arith)

module _ (sha256_hex : Text → Text) (token_urlsafe : ℕ → ℕ → Text) (url_problem : Text → Bool) where
  -- What a session that was created is.
  record IsCreated (a : Application) (ttl : Time) (now : Time) (pages : Pages)
      (out : (ConnectSession × Text) × Pages) : Type 0 where
    domain : Domain
    app_name : Option Text
    return_url : Option Text
    found :
        any
          (λ e. e.id == domain.id && e.application_id == a.id && not (is_deleted e))
          pages.store.domains
        ≡ true
    allowed : (leb min_ttl ttl && leb ttl max_ttl) ≡ true
    token : out.0.1 ≡ token_urlsafe 32 pages.next_id
    row :
        out.0.0
        ≡ new_session sha256_hex token_urlsafe url_problem a domain
            (token_urlsafe 32 pages.next_id)
            ttl
            app_name
            return_url
            now
            pages.next_id
    store : out.1.store ≡ pages.store
    sessions : out.1.sessions ≡ pages.sessions ++ out.0.0 ∷ []

  create_session_ok :
      (a : Application) (id : ℕ) (has_base_url : Bool) (ttl_seconds : Option ℕ)
      (app_name return_url : Option Text) (now : Time) (pages : Pages)
      {out : (ConnectSession × Text) × Pages}
      → create_session sha256_hex token_urlsafe url_problem a id has_base_url ttl_seconds app_name
          return_url now pages
        ≡ ok out
      → IsCreated a (ttl_of ttl_seconds) now pages out
  unfolding create_session
  create_session_ok a id has_base_url ttl_seconds app_name return_url now pages {out} h =
      let ttl = ttl_of ttl_seconds in
      let (_, ranged, h₁) =
        >>=-ok (raise_if (not (leb min_ttl ttl && leb ttl max_ttl)) invalid_connect_request) _ h in
      let (_, _, h₂) =
        >>=-ok (raise_if (bad app_name_problem app_name) invalid_connect_request) _ h₁ in
      let (_, _, h₃) =
        >>=-ok (raise_if (bad url_problem return_url) invalid_connect_request) _ h₂ in
      let (d, got, h₄) = >>=-ok (get_domain a id false pages.store) _ h₃ in
      let (_, _, h₅) = >>=-ok (raise_if (not has_base_url) connect_page_unavailable) _ h₄ in
      let (_, _, e) = >>=-ok (enforce_session_limits d now pages.sessions) _ h₅ in
      record {
        domain = d;
        app_name = app_name;
        return_url = return_url;
        found = found_any a id d pages.store.domains (get_domain_ok a id false pages.store got);
        allowed = ground (arith, ranged);
        token = ground (arith, e);
        row = ground (arith, e);
        store = ground (arith, e);
        sessions = ground (arith, e);
      }

  -- When a session is created for an application that is in the database, active and not deleted, its token has the form of a
  -- token, and no earlier session has the hash of that token, then the token opens exactly this session until it expires, and
  -- none from then on; it expires five minutes to 24 hours after its creation.
  pub create_session-open_session :
      (a : Application) (id : ℕ) (has_base_url : Bool) (ttl_seconds : Option ℕ)
      (app_name return_url : Option Text) (now : Time) (pages : Pages)
      {out : (ConnectSession × Text) × Pages}
      → create_session sha256_hex token_urlsafe url_problem a id has_base_url ttl_seconds app_name
          return_url now pages
        ≡ ok out
      → any
          (λ b. b.id == a.id && is_active_status b.status && is_none b.deleted_at)
          pages.store.applications
        ≡ true
      → is_token out.0.1 ≡ true
      → All (λ q. text_eq q.token_hash (sha256_hex out.0.1) ≡ false) pages.sessions
      → ((at : Time)
          → open_session sha256_hex out.0.1 at out.1
            ≡ (if leb out.0.0.expires_at at then none else some out.0.0))
        × (now + minutes 5 ≤ out.0.0.expires_at)
        × (out.0.0.expires_at ≤ now + hours 24)
  unfolding open_session is_page_live
  create_session-open_session a id has_base_url ttl_seconds app_name return_url now pages {out} h
        active formed fresh =
      let c = create_session_ok a id has_base_url ttl_seconds app_name return_url now pages h in
      let r = out.0.0 in
      let hash : text_eq r.token_hash (sha256_hex out.0.1) ≡ true =
        rw (c.row, c.token) (text_eq_refl (sha256_hex (token_urlsafe 32 pages.next_id))) in
      let looked_up : first (λ q. text_eq q.token_hash (sha256_hex out.0.1)) out.1.sessions
          ≡ some r =
        rw c.sessions (first-append (sha256_hex out.0.1) r pages.sessions fresh hash) in
      let expiry : r.expires_at ≡ now + ttl_of ttl_seconds =
        ap (λ (q : ConnectSession). q.expires_at) c.row in
      let kept : is_some r.revoked_at ≡ false =
        ap (λ (q : ConnectSession). is_some q.revoked_at) c.row in
      let live : is_page_live r out.1.store ≡ true =
        rw (c.row, c.store) (ground (arith, c.found, active)) in
      (
        (λ at. rw (formed, looked_up) (opened_until at r out.1.store kept live)),
        ground (arith, c.allowed, expiry),
        ground (arith, c.allowed, expiry),
      )
