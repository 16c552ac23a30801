-- ===== src/Auth/Tests.antt =====
-- The theorems on markers and identities at a concrete configuration and requests.
use gpustack_higress_plugin.Common.{
  lookup, false, zero, suc, ◌+◌, ◌-◌, ◌≡◌, ◌⊎◌, IsInt64, refl, ap, ◌∙◌, subst, Bytes, true, false,
  none, some, List, [], ◌∷◌, ◌++◌, ℤ, pos, negsuc, codes, eqb, count_byte, length, take, drop,
  add64, wrap64, to_uint64, to_int64, ◌+ℤ◌, eq64, le64, if◌then◌else◌, arith,
}
use gpustack_higress_plugin.Auth.{
  MarkerClaims, MarkerPayload, Primitives, PluginConfig, KeyEntry, Identity, no_identity, resolved,
  source_keys, access_policy_authed, header_llm_model, extract_header, identity_still_valid,
  is_unrestricted,
}
use gpustack_higress_plugin.Auth.Matcher.{MatchOps, prefix_matcher}
use gpustack_higress_plugin.Auth.Request.{
  AuthzHeaders, RequestInfo, header_access_key, header_key_ref, header_mse_consumer,
  build_authz_request_headers,
}
use gpustack_higress_plugin.Auth.Request.Asserted.{named_only, build_authz_request_headers-asserted}
use gpustack_higress_plugin.Auth.Marker.{
  sign_marker, verify_marker, marker_signature, marker_ttl, split_normalized_id,
}
use gpustack_higress_plugin.Auth.Marker.RoundTrip.{token_of}
use gpustack_higress_plugin.Auth.Cache.{lookup_verification, store_verification, evict_verification}
use gpustack_higress_plugin.Auth.Cache.Entries.{written, lookup_verification-store_verification}
use gpustack_higress_plugin.Auth.Resolve.{
  or_keys, normalized_id, marker_claims_for, apply_marker, resolve_from_marker,
  resolve_identity_tiers, resolve_identity, matches_route, local_skip_consumer,
  authed_skip_eligible, local_consumer, on_http_request_headers,
}
use gpustack_higress_plugin.Auth.Resolve.NextPass.{restored, resolve_identity-apply_marker}
use gpustack_higress_plugin.Auth.Resolve.Tiers.{note_rejected}
use gpustack_higress_plugin.Auth.Marker.Text.{IsText}
use gpustack_higress_plugin.Auth.Resolve.Vouched.{IsVouched, resolve_identity-IsVouched}
use gpustack_higress_plugin.Auth.Resolve.Skip.{
  passes_unasked, IsOpen, on_http_request_headers-IsOpen,
}

-- base64 is a shift past the letters, and JSON a text of the fields with their lengths in front.
abbrev shift_up : Bytes → Bytes
shift_up [] = []
shift_up (c ∷ s) = (c + 100) ∷ shift_up s

abbrev shift_down : Bytes → Bytes
shift_down [] = []
shift_down (c ∷ s) = (c - 100) ∷ shift_down s

abbrev framed : Bytes → Bytes → Bytes
framed s rest = length s ∷ (s ++ rest)

abbrev int_text : ℤ → Bytes
int_text (pos n) = 0 ∷ n ∷ []
int_text (negsuc n) = 1 ∷ n ∷ []

abbrev int_of : Bytes → ℤ
int_of (zero ∷ n ∷ rest) = pos n
int_of (suc m ∷ n ∷ rest) = negsuc n
int_of [] = pos 0
int_of (m ∷ []) = pos 0

abbrev unframed : Bytes → Bytes × Bytes
unframed [] = ([], [])
unframed (n ∷ s) = (take n s, drop n s)

abbrev payload_text : MarkerPayload → Bytes
payload_text p =
    framed p.claims.id
      (framed p.claims.consumer (framed p.claims.model (framed p.claims.conn (int_text p.exp))))

abbrev text_payload : Bytes → MarkerPayload
text_payload s =
    let (id, a) = unframed s in
    let (consumer, b) = unframed a in
    let (model, c) = unframed b in
    let (conn, d) = unframed c in
    record {
      claims = record { id = id; consumer = consumer; model = model; conn = conn };
      exp = int_of d;
    }

abbrev toy : Primitives
toy = record {
  equal_fold = eqb;
  trim_space = λ s. s;
  sha256 = λ s. s;
  hmac_sha256 = λ k s. k ++ s;
  blake2b_128 = λ s. s;
  hex = λ s. s;
  base64 = shift_up;
  unbase64 = λ s. some (shift_down s);
  marshal = λ p. some (payload_text p);
  unmarshal = λ s. some (text_payload s);
}

shift_down-shift_up : (s : Bytes) → shift_down (shift_up s) ≡ s
shift_down-shift_up [] = refl
shift_down-shift_up (c ∷ s) =
    ap (λ d. d ∷ shift_down (shift_up s)) (omega arith) ∙ ap (λ l. c ∷ l) (shift_down-shift_up s)

toy_decodes : (s : Bytes) → toy.unbase64 (toy.base64 s) ≡ some s
toy_decodes s = ap (λ x. some x) (shift_down-shift_up s)

toy_no_dot : (s : Bytes) → count_byte b'.' (toy.base64 s) ≡ 0
toy_no_dot [] = refl
toy_no_dot (c ∷ s) = ground (arith, toy_no_dot s)

take-whole : (s rest : Bytes) → take (length s) (s ++ rest) ≡ s
take-whole [] rest = refl
take-whole (c ∷ s) rest = ap (λ l. c ∷ l) (take-whole s rest)

drop-whole : (s rest : Bytes) → drop (length s) (s ++ rest) ≡ rest
drop-whole [] rest = refl
drop-whole (c ∷ s) rest = drop-whole s rest

int_of-int_text : (n : ℤ) → int_of (int_text n) ≡ n
int_of-int_text (pos n) = refl
int_of-int_text (negsuc n) = refl

text_payload-payload_text : (p : MarkerPayload) → text_payload (payload_text p) ≡ p
text_payload-payload_text p =
    let c = p.claims in
    let r3 = framed c.conn (int_text p.exp) in
    let r2 = framed c.model r3 in
    let r1 = framed c.consumer r2 in
    rw (drop-whole c.id r1) (
      rw (drop-whole c.consumer r2) (
        rw (drop-whole c.model r3) (
          rw
            (
              drop-whole c.conn (int_text p.exp),
              take-whole c.id r1,
              take-whole c.consumer r2,
              take-whole c.model r3,
              take-whole c.conn (int_text p.exp),
              int_of-int_text p.exp,
            )
            refl)))

toy_reads :
    (p : MarkerPayload) (s : Bytes)
    → IsText p.claims
    → IsInt64 p.exp
    → toy.marshal p ≡ some s
    → toy.unmarshal s ≡ some p
toy_reads p s text bounded h =
    subst (λ t. some (text_payload t) ≡ some p) (some-inj h)
      (ap (λ q. some q) (text_payload-payload_text p))
  where
    some-inj : {x y : Bytes} → some x ≡ some y → x ≡ y
    some-inj h = cc

-- One key, `k`, of the user 7, whose secret is `s`; no refs but `r`.
abbrev user_key : KeyEntry
user_key = record {
  exp = some (pos 1000);
  digest = codes "sha256$x$y";
  user_id = pos 7;
  unrestricted = true;
}

abbrev config : PluginConfig
config = record {
  route_match_regexes = (λ r. true) ∷ [];
  access_policy = access_policy_authed;
  local_auth = record {
    enabled = true;
    keys = (codes "k", user_key) ∷ [];
    refs = (codes "r", record { exp = none; unrestricted = false }) ∷ [];
  };
  authz_ready = true;
  auth_cache = record { header = codes "x-marker"; signing_key = codes "secret" };
  status_on_error = pos 403;
  failure_mode_allow = false;
  failure_mode_allow_authenticated = true;
}

abbrev caller : Identity
caller = record no_identity {
  state = resolved;
  source = source_keys;
  access_key = codes "k";
  user_id = pos 7;
}

abbrev claims : MarkerClaims
claims = record {
  id = codes "ak:k";
  consumer = codes "k.gpustack-7";
  model = codes "m";
  conn = codes "1.2.3.4:5";
}

abbrev token : Bytes
token = token_of toy (codes "secret") (payload_text (record { claims = claims; exp = pos 400 }))

abbrev headers : List (Bytes × Bytes)
headers = (codes "x-marker", token) ∷ (header_llm_model, codes "m") ∷ []

leaves_marker :
    apply_marker toy config caller (codes "m") (codes "k.gpustack-7") (codes "1.2.3.4:5") (pos 100)
    ≡ some token
unfolding apply_marker marker_claims_for sign_marker marker_signature normalized_id add64 wrap64
    to_uint64 to_int64 ◌+ℤ◌ token_of
leaves_marker = refl

carried : extract_header toy headers (codes "x-marker") ≡ token
unfolding extract_header
carried = refl

for_model : extract_header toy headers header_llm_model ≡ codes "m"
unfolding extract_header
for_model = refl

not_zero : eq64 (add64 (pos 100) marker_ttl) (pos 0) ≡ false
unfolding add64 wrap64 to_uint64 to_int64 ◌+ℤ◌
not_zero = refl

not_expired : le64 (add64 (pos 100) marker_ttl) (pos 200) ≡ false
unfolding add64 wrap64 to_uint64 to_int64 ◌+ℤ◌
not_expired = refl

token_filled : eqb token [] ≡ false
unfolding token_of
token_filled = refl

claims-IsText : IsText (record {
  id = normalized_id caller;
  consumer = codes "k.gpustack-7";
  model = codes "m";
  conn = codes "1.2.3.4:5";
})
unfolding normalized_id
claims-IsText = (refl, refl, refl, refl)

-- The next pass, at 200, with the key still there.
resolve_identity-apply_marker_example :
    resolve_identity toy config headers (codes "1.2.3.4:5") (pos 200) (λ k. none) ≡ (
      if identity_still_valid config (codes "k") [] (pos 200)
      then (restored caller (codes "k.gpustack-7"), [])
      else note_rejected
          (or_keys toy config headers (codes "1.2.3.4:5") (pos 200) (λ k. none) none))
resolve_identity-apply_marker_example =
    resolve_identity-apply_marker toy config config caller (codes "m") (codes "k.gpustack-7")
      (codes "1.2.3.4:5") token (pos 100) (pos 200) headers (λ k. none) toy_decodes toy_no_dot
      toy_reads claims-IsText leaves_marker refl refl carried token_filled for_model not_zero
      not_expired

resolves :
    (resolve_identity toy config headers (codes "1.2.3.4:5") (pos 200) (λ k. none)).0.state
    ≡ resolved
unfolding resolve_identity resolve_identity_tiers resolve_from_marker verify_marker marker_signature
    token_of extract_header split_normalized_id identity_still_valid
resolves = refl

resolve_identity-IsVouched_example :
    IsVouched toy config headers
      (codes "1.2.3.4:5")
      (pos 200)
      (resolve_identity toy config headers (codes "1.2.3.4:5") (pos 200) (λ k. none)).0
resolve_identity-IsVouched_example =
    resolve_identity-IsVouched toy config headers (codes "1.2.3.4:5") (pos 200) (λ k. none) resolves

passes :
    passes_unasked
      (on_http_request_headers toy config
        (codes "1.2.3.4:5")
        (pos 200)
        (codes "route")
        (λ k. none)
        (some headers)).0
    ≡ true
unfolding on_http_request_headers matches_route resolve_identity resolve_identity_tiers
    resolve_from_marker verify_marker marker_signature token_of extract_header split_normalized_id
    identity_still_valid local_skip_consumer authed_skip_eligible is_unrestricted local_consumer
passes = refl

on_http_request_headers-IsOpen_example :
    (matches_route config.route_match_regexes (codes "route") ≡ false)
    ⊎ ((sent : List (Bytes × Bytes)) × (some headers ≡ some sent)
        × IsOpen config
            (resolve_identity toy config sent (codes "1.2.3.4:5") (pos 200) (λ k. none)).0
            (extract_header toy sent header_llm_model)
            (pos 200))
on_http_request_headers-IsOpen_example =
    on_http_request_headers-IsOpen toy config (codes "1.2.3.4:5") (pos 200) (codes "route")
      (λ k. none) (some headers) refl passes

lookup_verification-store_verification_example :
    (lookup_verification toy
        (written
          (store_verification toy config (codes "cred") (codes "r") (codes "bob"))
          (λ k. none))
        (codes "cred")
      ≡ some (codes "r", codes "bob"))
    × (lookup_verification toy
          (written (evict_verification toy (codes "cred")) (λ k. none))
          (codes "cred")
        ≡ none)
lookup_verification-store_verification_example =
    lookup_verification-store_verification toy config (λ k. none) (codes "cred") (codes "r")
      (codes "bob") refl (λ h. absurd (cc)) (λ h. absurd (cc)) (λ h. absurd (cc)) refl refl

-- Names that are already canonical.
abbrev same_name : Bytes → Bytes
same_name s = s

abbrev plain_match : MatchOps
plain_match = record { equal_fold = eqb; to_lower = λ s. s; compile = λ s. none }

-- A client that claims an access key of its own.
abbrev claiming : List (Bytes × Bytes)
claiming = (header_access_key, codes "admin") ∷ []

abbrev every_header : AuthzHeaders
every_header = record {
  allowed_headers = some (prefix_matcher [] false ∷ []);
  headers_to_add = (codes "x-gateway", codes "g") ∷ [];
}

abbrev get_v1 : RequestInfo
get_v1 = record {
  method = codes "GET";
  path = codes "/v1";
  host = codes "h";
  scheme = codes "https";
}

build_authz_request_headers-asserted_example :
    (lookup header_access_key (
        build_authz_request_headers same_name toy plain_match every_header config.auth_cache get_v1
          claiming caller
          (codes "1.2.3.4:5"))
      ≡ named_only caller caller.access_key)
    × (lookup header_key_ref (
          build_authz_request_headers same_name toy plain_match every_header config.auth_cache
            get_v1 claiming caller
            (codes "1.2.3.4:5"))
        ≡ named_only caller caller.ref)
    × (lookup header_mse_consumer (
          build_authz_request_headers same_name toy plain_match every_header config.auth_cache
            get_v1 claiming caller
            (codes "1.2.3.4:5"))
        ≡ none)
build_authz_request_headers-asserted_example =
    build_authz_request_headers-asserted same_name toy plain_match (λ a b la lb. refl) claiming
      caller every_header config.auth_cache get_v1 (codes "1.2.3.4:5")
