-- ===== src/Auth/Resolve.antt =====
-- main.go: who a request is from, and what is decided about it without asking the server.
pub mod Vouched
pub mod Tiers
pub mod NextPass
pub mod Skip
use gpustack_higress_plugin.Common.{
  Bytes, Bool, true, false, Option, none, some, List, [], ◌∷◌, ◌++◌, ℤ, pos, codes, eqb, any,
  lookup, le64, lt64, add64, length, not, ◌&&◌, ◌||◌, ◌==◌, format_int, if◌then◌else◌,
}
use gpustack_higress_plugin.Auth.{
  MarkerClaims, Primitives, KeyEntry, PluginConfig, Identity, IdentityState, no_identity,
  unresolved, resolved, rejected, IdentitySource, source_none, source_marker, source_keys,
  source_cache, source_anonymous, expired, can_sign, access_policy_public, access_policy_authed,
  extract_header, header_llm_model, credential_headers, identity_still_valid, is_unrestricted,
  identity_prefix_access_key, identity_prefix_ref, identity_anonymous_id,
}
use gpustack_higress_plugin.Auth.Credential.{
  parse_api_key, verify_secret_key_digest, extract_credential, has_server_first_credential,
}
use gpustack_higress_plugin.Auth.Marker.{
  sign_marker, verify_marker, marker_ttl, split_normalized_id,
}
use gpustack_higress_plugin.Auth.Cache.{Writes, resolve_from_verification_cache}

abbrev pub anonymous_consumer : Bytes
anonymous_consumer = codes "none"

abbrev pub is_public : PluginConfig → Bool
is_public config = eqb config.access_policy access_policy_public

abbrev pub is_resolved : IdentityState → Bool
is_resolved resolved = true
is_resolved unresolved = false
is_resolved rejected = false

-- identity.normalizedID
unfoldable pub normalized_id : Identity → Bytes
normalized_id id =
    if id.anonymous
    then identity_anonymous_id
    else if not (eqb id.access_key [])
    then identity_prefix_access_key ++ id.access_key
    else if not (eqb id.ref [])
    then identity_prefix_ref ++ id.ref
    else []

abbrev pub or_none : Option Identity → Identity
or_none none = no_identity
or_none (some id) = id

module _ (P : Primitives) (config : PluginConfig) (headers : List (Bytes × Bytes)) (conn : Bytes)
    (now : ℤ) where
  abbrev pub named_identity : MarkerClaims → Option (Bytes × Bytes) → Option Identity
  named_identity claims none = none
  named_identity claims (some (access_key, ref)) =
      if not (identity_still_valid config access_key ref now)
      then none
      else some (record no_identity {
        state = resolved;
        source = source_marker;
        access_key = access_key;
        ref = ref;
        consumer = claims.consumer;
      })

  abbrev pub claimed_identity : Option MarkerClaims → Option Identity
  claimed_identity none = none
  claimed_identity (some claims) =
      if eqb claims.model [] || not (eqb claims.model (extract_header P headers header_llm_model))
      then none
      else if eqb claims.conn [] || not (eqb claims.conn conn)
      then none
      else if eqb claims.id identity_anonymous_id
      then (if not (is_public config)
          then none
          else some (record no_identity {
            state = resolved;
            source = source_marker;
            anonymous = true;
            consumer = claims.consumer;
          }))
      else named_identity claims (split_normalized_id claims.id)

  unfoldable pub resolve_from_marker : Option Identity
  unfolding extract_header verify_marker identity_still_valid split_normalized_id
  resolve_from_marker =
      let raw = extract_header P headers config.auth_cache.header in
      if not (can_sign config.auth_cache)
      then none
      else if eqb raw []
      then none
      else claimed_identity (verify_marker P config.auth_cache.signing_key raw now)

  abbrev pub verified_identity : Bytes → KeyEntry → Option Bool → Option Identity
  verified_identity access_key entry none =
      some (record no_identity { access_key = access_key; digest_unusable = true })
  verified_identity access_key entry (some false) = some (record no_identity { state = rejected })
  verified_identity access_key entry (some true) = some (record no_identity {
    state = resolved;
    source = source_keys;
    access_key = access_key;
    user_id = entry.user_id;
  })

  abbrev pub found_key : Bytes → Bytes → Option KeyEntry → Option Identity
  found_key access_key secret_key none = none
  found_key access_key secret_key (some entry) =
      if expired entry.exp now
      then none
      else verified_identity access_key entry (verify_secret_key_digest P entry.digest secret_key)

  unfoldable pub resolve_from_keys : Option Identity
  unfolding extract_credential parse_api_key verify_secret_key_digest
  resolve_from_keys =
      let credential = extract_credential P headers in
      let (access_key, secret_key) = parse_api_key P credential in
      if length config.local_auth.keys == 0
      then none
      else if eqb credential []
      then none
      else found_key access_key secret_key (lookup access_key config.local_auth.keys)

  unfoldable pub resolve_anonymous : Option Identity
  unfolding extract_header
  resolve_anonymous =
      if not (is_public config)
      then none
      else if any (λ name. not (eqb (extract_header P headers name) [])) credential_headers
      then none
      else some
          (record no_identity { state = resolved; source = source_anonymous; anonymous = true })

  abbrev pub or_anonymous : Option Identity × Writes → Identity × Writes
  or_anonymous (some id, writes) = (id, writes)
  or_anonymous (none, writes) = (or_none resolve_anonymous, writes)

  abbrev pub or_cache : (Bytes → Option Bytes) → Option Identity → Identity × Writes
  or_cache shared (some id) = (id, [])
  or_cache shared none = or_anonymous (resolve_from_verification_cache P config shared headers now)

  abbrev pub or_keys : (Bytes → Option Bytes) → Option Identity → Identity × Writes
  or_keys shared (some id) = (id, [])
  or_keys shared none =
      if has_server_first_credential P headers
      then (no_identity, [])
      else or_cache shared resolve_from_keys

  unfoldable pub resolve_identity_tiers : (Bytes → Option Bytes) → Identity × Writes
  unfolding resolve_from_marker resolve_from_keys resolve_anonymous resolve_from_verification_cache
      has_server_first_credential
  resolve_identity_tiers shared =
      if not config.local_auth.enabled
      then (no_identity, [])
      else or_keys shared resolve_from_marker

  abbrev pub is_from_marker : IdentitySource → Bool
  is_from_marker source_marker = true
  is_from_marker source = false

  abbrev pub with_marker_note : Identity × Writes → Identity × Writes
  with_marker_note (id, writes) =
      if not (is_from_marker id.source)
        && can_sign config.auth_cache
        && not (eqb (extract_header P headers config.auth_cache.header) [])
      then (record id { marker_rejected = true }, writes)
      else (id, writes)

  unfoldable pub resolve_identity : (Bytes → Option Bytes) → Identity × Writes
  unfolding resolve_identity_tiers extract_header
  resolve_identity shared = with_marker_note (resolve_identity_tiers shared)

unfoldable pub authed_skip_eligible : PluginConfig → Identity → Bytes → ℤ → Bool
unfolding is_unrestricted
authed_skip_eligible config id model now =
    if not (is_resolved id.state) || id.anonymous || eqb model []
    then false
    else is_unrestricted config.local_auth id now

unfoldable pub local_consumer : Identity → Option Bytes
unfolding format_int
local_consumer id =
    if not (is_resolved id.state)
    then none
    else if id.anonymous
    then some anonymous_consumer
    else if not (eqb id.consumer [])
    then some id.consumer
    else if eqb id.access_key [] || le64 id.user_id (pos 0)
    then none
    else some (id.access_key ++ codes ".gpustack-" ++ format_int id.user_id)

unfoldable pub local_skip_consumer : PluginConfig → Identity → Bytes → ℤ → Option Bytes
unfolding authed_skip_eligible local_consumer
local_skip_consumer config id model now =
    if is_public config
    then local_consumer id
    else if eqb config.access_policy access_policy_authed
    then (if not (authed_skip_eligible config id model now) then none else local_consumer id)
    else none

unfoldable pub marker_claims_for :
    PluginConfig → Identity → Bytes → Bytes → Bytes → Option MarkerClaims
unfolding normalized_id
marker_claims_for config id model consumer conn =
    if not config.local_auth.enabled || not (can_sign config.auth_cache)
    then none
    else if eqb (normalized_id id) [] || eqb model [] || eqb consumer []
    then none
    else if eqb conn []
    then none
    else some (record { id = normalized_id id; consumer = consumer; model = model; conn = conn })

abbrev pub signed_claims : Primitives → PluginConfig → ℤ → Option MarkerClaims → Option Bytes
signed_claims P config now none = none
signed_claims P config now (some claims) =
    sign_marker P config.auth_cache.signing_key claims (add64 now marker_ttl)

-- The value that the marker header is set to, where it is set.
unfoldable pub apply_marker :
    Primitives → PluginConfig → Identity → Bytes → Bytes → Bytes → ℤ → Option Bytes
unfolding marker_claims_for sign_marker add64
apply_marker P config id model consumer conn now =
    signed_claims P config now (marker_claims_for config id model consumer conn)

unfoldable pub failure_mode_allows : PluginConfig → Identity → ℤ → Bool
failure_mode_allows config id status_code =
    if lt64 status_code (pos 500)
    then false
    else if config.failure_mode_allow
    then true
    else config.failure_mode_allow_authenticated && is_resolved id.state && not id.anonymous

unfoldable pub status_for_failure : PluginConfig → ℤ → ℤ
status_for_failure config status_code =
    if le64 (pos 500) status_code then config.status_on_error else status_code

-- What the plugin does with the request: let it pass untouched, reply with a status, let it pass
-- under a consumer's name with a marker, or ask the server for it.
pub data AuthStep : Type 0 where
  not_covered : AuthStep
  reply : ℤ → AuthStep
  allowed : Bytes → Option Bytes → AuthStep
  asks : Identity → AuthStep

unfoldable pub matches_route : List (Bytes → Bool) → Bytes → Bool
matches_route patterns route_name =
    if eqb route_name [] then false else any (λ p. p route_name) patterns

module _ (P : Primitives) (config : PluginConfig) (conn : Bytes) (now : ℤ) where
  abbrev pub skipped : Identity → Bytes → Option Bytes → AuthStep
  skipped id model none = asks id
  skipped id model (some consumer) =
      allowed consumer (apply_marker P config id model consumer conn now)

  abbrev pub decided_on : List (Bytes × Bytes) → Identity → AuthStep
  decided_on headers id =
      let model = extract_header P headers header_llm_model in
      skipped id model (local_skip_consumer config id model now)

  abbrev pub decided_at : List (Bytes × Bytes) → Identity → IdentityState → AuthStep
  decided_at headers id rejected =
      if is_public config then decided_on headers no_identity else reply (pos 401)
  decided_at headers id resolved = decided_on headers id
  decided_at headers id unresolved = decided_on headers id

  abbrev pub on_headers : (Bytes → Option Bytes) → Option (List (Bytes × Bytes)) → AuthStep × Writes
  on_headers shared none = (reply config.status_on_error, [])
  on_headers shared (some headers) =
      let (id, writes) = resolve_identity P config headers conn now shared in
      (decided_at headers id id.state, writes)

  unfoldable pub on_http_request_headers :
      Bytes → (Bytes → Option Bytes) → Option (List (Bytes × Bytes)) → AuthStep × Writes
  unfolding matches_route resolve_identity local_skip_consumer apply_marker extract_header
  on_http_request_headers route_name shared headers =
      if not (matches_route config.route_match_regexes route_name)
      then (not_covered, [])
      else if not config.authz_ready
      then (reply config.status_on_error, [])
      else on_headers shared headers
