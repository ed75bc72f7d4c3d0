-- ===== src/Tenants/Origins.antt =====
-- app/services/applications.py: the origins of an application, as the list that the application row carries. The mode
-- of the Host header is given as parsed, and a port is not negative.
use custom_domain.Common.{
  ℕ, ◌==◌, Bool, true, false, not, ◌&&◌, Option, none, some, List, [], ◌∷◌, ◌++◌, any, first,
  select, update, ltb, Text, Time, codes, text_eq, if◌then◌else◌,
}
use custom_domain.Errors.{
  Result, ok, err, ◌>>=◌, ◌>>◌, raise_if, or_raise, invalid_origin, origin_conflict,
  origin_not_verified, origin_in_use,
}
use custom_domain.Hostname.{Libraries, Canonical, canonicalize, lower}
use custom_domain.Model.{
  Application, VerifiedOrigin, OriginStatus, OriginHostHeader, is_verified_origin,
}

abbrev pub default_port : Text → Option ℕ
default_port scheme =
    if text_eq scheme (codes "https")
    then some 443
    else if text_eq scheme (codes "http")
    then some 80
    else none

-- `port or DEFAULT_PORTS[scheme]`
abbrev pub port_or : Option ℕ → ℕ → ℕ
port_or none default = default
port_or (some port) default = if port == 0 then default else port

-- The unique key of an origin.
abbrev pub same_address : VerifiedOrigin → VerifiedOrigin → Bool
same_address o p = text_eq o.scheme p.scheme && text_eq o.host p.host && o.port == p.port

abbrev pub put_origin : VerifiedOrigin → List VerifiedOrigin → List VerifiedOrigin
put_origin o origins = update (λ r. r.id == o.id) (λ _. o) origins

unfoldable pub record_origin_verification :
    VerifiedOrigin
    → Bool
    → Option Text
    → Time
    → List VerifiedOrigin
    → VerifiedOrigin × List VerifiedOrigin
record_origin_verification origin verified error_code now origins =
    let passed = record origin {
      last_checked_at = some now;
      status = OriginStatus.verified;
      verified_at = some now;
      last_error_code = none;
    } in
    let code : Text = elim error_code [
      | none ↦ codes "origin_verification_failed"
      | some c ↦ elim c [ [] ↦ codes "origin_verification_failed" | x ∷ xs ↦ x ∷ xs ]
    ] in
    let failed = record origin {
      last_checked_at = some now;
      status = OriginStatus.failed;
      last_error_code = some code;
      is_active = false;
    } in
    let result = if verified then passed else failed in (result, put_origin result origins)

-- Takes the traffic from every other origin first.
unfoldable pub activate_origin :
    VerifiedOrigin → List VerifiedOrigin → Result (VerifiedOrigin × List VerifiedOrigin)
activate_origin origin origins =
    let alone =
      update (λ r. not (r.id == origin.id) && r.is_active) (λ r. record r { is_active = false })
        origins in
    let result = record origin { is_active = true } in
    raise_if (not (is_verified_origin origin.status)) origin_not_verified
    >> ok (result, put_origin result alone)

unfoldable pub delete_origin : VerifiedOrigin → List VerifiedOrigin → Result (List VerifiedOrigin)
delete_origin origin origins =
    raise_if origin.is_active origin_in_use >> ok (select (λ r. not (r.id == origin.id)) origins)

unfoldable pub retire_origin :
    VerifiedOrigin → List VerifiedOrigin → VerifiedOrigin × List VerifiedOrigin
retire_origin origin origins =
    let result = record origin { is_active = false; status = OriginStatus.retired } in
    (result, put_origin result origins)

unfoldable pub get_active_origin : List VerifiedOrigin → Option VerifiedOrigin
get_active_origin origins = first (λ o. o.is_active) origins

-- `canonicalize`, whose error is the origin's.
abbrev pub host_or_raise : Canonical → Result Text
host_or_raise (Canonical.ok name) = ok name
host_or_raise (Canonical.invalid e) = err invalid_origin

abbrev pub is_registered : VerifiedOrigin → List VerifiedOrigin → Bool
is_registered o origins = any (same_address o) origins

module _ (libs : Libraries) (token_urlsafe : ℕ → ℕ → Text) where
  abbrev pub new_origin : Application → Text → Text → ℕ → OriginHostHeader → ℕ → VerifiedOrigin
  new_origin application scheme host port host_header id = record {
    id = id;
    application_id = application.id;
    scheme = scheme;
    host = host;
    port = port;
    host_header = host_header;
    status = OriginStatus.pending;
    is_active = false;
    verification_token = token_urlsafe 24 id;
    verified_at = none;
    last_checked_at = none;
    last_error_code = none;
  }

  abbrev pub add_origin :
      VerifiedOrigin → List VerifiedOrigin → Result (VerifiedOrigin × List VerifiedOrigin)
  add_origin o origins =
      raise_if (is_registered o origins) origin_conflict >> ok (o, origins ++ o ∷ [])

  -- The identifier of the row also draws the token.
  unfoldable pub register_origin :
      Application
      → Text
      → Text
      → Option ℕ
      → OriginHostHeader
      → ℕ
      → List VerifiedOrigin
      → Result (VerifiedOrigin × List VerifiedOrigin)
  register_origin application host scheme port host_header id origins = do
    default ← or_raise (default_port (lower scheme)) invalid_origin
    name ← host_or_raise (canonicalize libs (some host) true)
    raise_if (ltb 65535 (port_or port default)) invalid_origin
    add_origin (new_origin application (lower scheme) name (port_or port default) host_header id)
        origins
