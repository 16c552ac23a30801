-- ===== src/Auth.antt =====
-- extensions/gpustack-ext-auth: the configuration (config.go), the identity of a caller (main.go),
-- and the reading of request headers (headers.go).
pub mod Credential
pub mod Marker
pub mod Cache
pub mod Resolve
pub mod Matcher
pub mod Request
mod Tests
use gpustack_higress_plugin.Common.{
  Bytes, Bool, true, false, Option, none, some, List, [], ◌∷◌, ℤ, pos, codes, eqb, le64, lookup,
  not, ◌&&◌, if◌then◌else◌,
}

-- What a marker says: who (id, consumer), for which model, on which connection.
pub record MarkerClaims : Type 0 where
  pub id : Bytes
  pub consumer : Bytes
  pub model : Bytes
  pub conn : Bytes

pub record MarkerPayload : Type 0 where
  pub claims : MarkerClaims
  pub exp : ℤ

-- The libraries that the plugin calls: strings.EqualFold and TrimSpace; SHA-256, HMAC-SHA256 and the
-- 16-byte BLAKE2b; hex and unpadded base64url; JSON of a marker's payload.
pub record Primitives : Type 0 where
  pub equal_fold : Bytes → Bytes → Bool
  pub trim_space : Bytes → Bytes
  pub sha256 : Bytes → Bytes
  pub hmac_sha256 : Bytes → Bytes → Bytes
  pub blake2b_128 : Bytes → Bytes
  pub hex : Bytes → Bytes
  pub base64 : Bytes → Bytes
  pub unbase64 : Bytes → Option Bytes
  pub marshal : MarkerPayload → Option Bytes
  pub unmarshal : Bytes → Option MarkerPayload

pub record KeyEntry : Type 0 where
  pub exp : Option ℤ
  pub digest : Bytes
  pub user_id : ℤ
  pub unrestricted : Bool

pub record RefEntry : Type 0 where
  pub exp : Option ℤ
  pub unrestricted : Bool

-- keyEntry.expired and refEntry.expired; times are Unix seconds.
abbrev pub expired : Option ℤ → ℤ → Bool
expired none now = false
expired (some exp) now = le64 exp now

pub record LocalAuth : Type 0 where
  pub enabled : Bool
  pub keys : List (Bytes × KeyEntry)
  pub refs : List (Bytes × RefEntry)

pub record AuthCache : Type 0 where
  pub header : Bytes
  pub signing_key : Bytes

-- The fields that the decisions read. A compiled route expression is what it matches.
pub record PluginConfig : Type 0 where
  pub route_match_regexes : List (Bytes → Bool)
  pub access_policy : Bytes
  pub local_auth : LocalAuth
  pub authz_ready : Bool
  pub auth_cache : AuthCache
  pub status_on_error : ℤ
  pub failure_mode_allow : Bool
  pub failure_mode_allow_authenticated : Bool

abbrev pub can_sign : AuthCache → Bool
can_sign a = not (eqb a.header []) && not (eqb a.signing_key [])

pub data IdentityState : Type 0 where
  unresolved : IdentityState
  resolved : IdentityState
  rejected : IdentityState

pub data IdentitySource : Type 0 where
  source_none : IdentitySource
  source_marker : IdentitySource
  source_keys : IdentitySource
  source_cache : IdentitySource
  source_anonymous : IdentitySource

pub record Identity : Type 0 where
  pub state : IdentityState
  pub source : IdentitySource
  pub access_key : Bytes
  pub ref : Bytes
  pub user_id : ℤ
  pub anonymous : Bool
  pub consumer : Bytes
  pub marker_rejected : Bool
  pub digest_unusable : Bool

abbrev pub no_identity : Identity
no_identity = record {
  state = unresolved;
  source = source_none;
  access_key = [];
  ref = [];
  user_id = pos 0;
  anonymous = false;
  consumer = [];
  marker_rejected = false;
  digest_unusable = false;
}

abbrev pub access_policy_public : Bytes
access_policy_public = codes "public"

abbrev pub access_policy_authed : Bytes
access_policy_authed = codes "authed"

abbrev pub header_authorization : Bytes
header_authorization = codes "authorization"

abbrev pub header_x_api_key : Bytes
header_x_api_key = codes "x-api-key"

abbrev pub header_cookie : Bytes
header_cookie = codes "cookie"

abbrev pub header_llm_model : Bytes
header_llm_model = codes "x-higress-llm-model"

abbrev pub credential_headers : List Bytes
credential_headers = header_authorization ∷ header_x_api_key ∷ header_cookie ∷ []

unfoldable pub extract_header : Primitives → List (Bytes × Bytes) → Bytes → Bytes
extract_header P [] key = []
extract_header P ((name, value) ∷ rest) key =
    let later = extract_header P rest key in
    if P.equal_fold name key then P.trim_space value else later

abbrev pub live_key : Option KeyEntry → ℤ → Bool
live_key none now = false
live_key (some entry) now = not (expired entry.exp now)

abbrev pub live_ref : Option RefEntry → ℤ → Bool
live_ref none now = false
live_ref (some entry) now = not (expired entry.exp now)

unfoldable pub identity_still_valid : PluginConfig → Bytes → Bytes → ℤ → Bool
identity_still_valid config access_key ref now =
    if not (eqb access_key [])
    then live_key (lookup access_key config.local_auth.keys) now
    else live_ref (lookup ref config.local_auth.refs) now

abbrev pub open_key : Option KeyEntry → ℤ → Bool
open_key none now = false
open_key (some entry) now = not (expired entry.exp now) && entry.unrestricted

abbrev pub open_ref : Option RefEntry → ℤ → Bool
open_ref none now = false
open_ref (some entry) now = not (expired entry.exp now) && entry.unrestricted

-- LocalAuth.unrestricted
unfoldable pub is_unrestricted : LocalAuth → Identity → ℤ → Bool
is_unrestricted l id now =
    if not (eqb id.access_key [])
    then open_key (lookup id.access_key l.keys) now
    else if eqb id.ref []
    then false
    else open_ref (lookup id.ref l.refs) now

abbrev pub identity_prefix_access_key : Bytes
identity_prefix_access_key = codes "ak:"

abbrev pub identity_prefix_ref : Bytes
identity_prefix_ref = codes "ref:"

abbrev pub identity_anonymous_id : Bytes
identity_anonymous_id = codes "anon"
