-- ===== src/Auth/Request.antt =====
-- main.go, buildAuthzRequestHeaders: the headers of the call to the server.
pub mod Asserted
use gpustack_higress_plugin.Common.{
  Bytes, Bool, true, false, Option, none, some, List, [], ◌∷◌, ◌++◌, codes, eqb, lookup, insert,
  keep, not, ◌&&◌, if◌then◌else◌,
}
use gpustack_higress_plugin.Auth.{
  Primitives, AuthCache, Identity, extract_header, header_authorization, credential_headers,
}
use gpustack_higress_plugin.Auth.Matcher.{MatchOps, Matcher, matches_header}
use gpustack_higress_plugin.Auth.Resolve.{is_resolved}

-- http.Header: the values under each canonical key.
abbrev pub Header : Type 0
Header = List (Bytes × List Bytes)

pub record RequestInfo : Type 0 where
  pub method : Bytes
  pub path : Bytes
  pub host : Bytes
  pub scheme : Bytes

-- The fields of Authz that say which headers are sent.
pub record AuthzHeaders : Type 0 where
  pub allowed_headers : Option (List Matcher)
  pub headers_to_add : List (Bytes × Bytes)

abbrev pub header_downstream_conn : Bytes
header_downstream_conn = codes "x-gpustack-downstream-conn"

abbrev pub header_access_key : Bytes
header_access_key = codes "x-gpustack-access-key"

abbrev pub header_key_ref : Bytes
header_key_ref = codes "x-gpustack-key-ref"

abbrev pub header_mse_consumer : Bytes
header_mse_consumer = codes "x-mse-consumer"

abbrev values_of : Option (List Bytes) → List Bytes
values_of none = []
values_of (some values) = values

abbrev pub described : RequestInfo → List (Bytes × Bytes)
described info =
    (codes "x-original-method", info.method)
    ∷ (codes "x-original-uri", info.path)
    ∷ (codes "x-forwarded-proto", info.scheme)
    ∷ (codes "x-forwarded-method", info.method)
    ∷ (codes "x-forwarded-uri", info.path)
    ∷ (codes "x-forwarded-host", info.host)
    ∷ []

-- `canonical` is http.CanonicalHeaderKey.
module _ (canonical : Bytes → Bytes) where
  abbrev pub add_header : Bytes → Bytes → Header → Header
  add_header name value h =
      insert (canonical name) (values_of (lookup (canonical name) h) ++ (value ∷ [])) h

  abbrev pub set_header : Bytes → Bytes → Header → Header
  set_header name value h = insert (canonical name) (value ∷ []) h

  abbrev pub del_header : Bytes → Header → Header
  del_header name h = keep (λ e. not (eqb (canonical name) e.0)) h

  abbrev pub set_all : List (Bytes × Bytes) → Header → Header
  set_all [] h = h
  set_all ((name, value) ∷ rest) h = set_all rest (set_header name value h)

  abbrev pub del_all : List Bytes → Header → Header
  del_all [] h = h
  del_all (name ∷ rest) h = del_all rest (del_header name h)

  module _ (P : Primitives) (M : MatchOps) where
    abbrev forwarded : Option (List Matcher) → List (Bytes × Bytes) → Header → Header
    forwarded allowed [] h = h
    forwarded allowed ((name, value) ∷ rest) h =
        forwarded allowed rest
          (if matches_header M allowed name then add_header name value h else h)

    abbrev with_marker : AuthCache → List (Bytes × Bytes) → Header → Header
    with_marker cache headers h =
        let marker = extract_header P headers cache.header in
        if not (eqb cache.header []) && not (eqb marker [])
        then set_header cache.header marker h
        else h

    abbrev pub set_filled : Bytes → Bytes → Header → Header
    set_filled name value h = if not (eqb value []) then set_header name value h else h

    -- The identity, or else the credential, that the server is told.
    unfoldable pub asserted : List (Bytes × Bytes) → Identity → Header → Header
    unfolding extract_header
    asserted headers id h =
        if is_resolved id.state && not id.anonymous
        then set_filled header_key_ref id.ref
            (set_filled header_access_key id.access_key (del_all credential_headers h))
        else set_filled header_authorization (extract_header P headers header_authorization) h

    unfoldable pub build_authz_request_headers :
        AuthzHeaders → AuthCache → RequestInfo → List (Bytes × Bytes) → Identity → Bytes → Header
    unfolding asserted matches_header extract_header
    build_authz_request_headers authz cache info headers id conn =
        let sent = set_all authz.headers_to_add (forwarded authz.allowed_headers headers []) in
        let marked = set_header header_downstream_conn conn (with_marker cache headers sent) in
        let stripped =
          del_all (header_access_key ∷ header_key_ref ∷ header_mse_consumer ∷ []) marked in
        set_all (described info) (asserted headers id stripped)
