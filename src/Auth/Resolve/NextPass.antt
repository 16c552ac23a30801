-- ===== src/Auth/Resolve/NextPass.antt =====
-- A marker that one pass of a request leaves, read by the next pass.
use gpustack_higress_plugin.Common.{
  ◌≡◌, refl, inl, inr, Bytes, Bool, true, false, none, some, List, [], ℤ, pos, IsInt64,
  add64-IsInt64, eqb, eqb_refl, Option, count_byte, eq64, le64, add64, not, ◌||◌, Bool-cases,
  if◌then◌else◌, arith,
}
use gpustack_higress_plugin.Auth.{
  MarkerPayload, Primitives, PluginConfig, Identity, no_identity, resolved, source_marker, can_sign,
  extract_header, header_llm_model, identity_still_valid, identity_anonymous_id,
}
use gpustack_higress_plugin.Auth.Marker.{marker_ttl, sign_marker, split_normalized_id}
use gpustack_higress_plugin.Auth.Marker.Text.{IsText}
use gpustack_higress_plugin.Auth.Resolve.Tiers.{
  note_rejected, or_keys-NotMarker, with_marker_note-rejected,
}
use gpustack_higress_plugin.Auth.Marker.RoundTrip.{verify_marker-sign_marker, none_is_some}
use gpustack_higress_plugin.Auth.Resolve.{
  normalized_id, marker_claims_for, apply_marker, resolve_from_marker, or_keys,
  resolve_identity_tiers, resolve_identity,
}

-- The key, or else the ref, that a named identity stands for.
abbrev pub named : Identity → Bytes × Bytes
named id = if not (eqb id.access_key []) then (id.access_key, []) else ([], id.ref)

abbrev pub restored : Identity → Bytes → Identity
restored id consumer = record no_identity {
  state = resolved;
  source = source_marker;
  access_key = (named id).0;
  ref = (named id).1;
  consumer = consumer;
}

split_normalized_id-normalized_id :
    (id : Identity)
    → id.anonymous ≡ false
    → eqb (normalized_id id) [] ≡ false
    → (split_normalized_id (normalized_id id) ≡ some (named id))
      × (eqb (normalized_id id) identity_anonymous_id ≡ false)
unfolding split_normalized_id normalized_id
split_normalized_id-normalized_id id known filled = elim (Bool-cases (eqb id.access_key [])) [
  | inr keyed ↦ rw (known, keyed) (rw keyed (refl, refl))
  | inl unkeyed ↦ elim (Bool-cases (eqb id.ref [])) [
    | inr reffed ↦ rw (known, unkeyed, reffed) (rw reffed (refl, refl))
    | inl neither ↦ absurd (true_is_false (rw (known, unkeyed, neither) at filled))
  ]
]
  where
    true_is_false : true ≡ false → ⊥
    true_is_false h = cc

-- What a marker is made of, and the guards that it passed.
record IsMarked (P : Primitives) (config : PluginConfig) (id : Identity)
    (model consumer conn token : Bytes) (now : ℤ) : Type 0 where
  signs : can_sign config.auth_cache ≡ true
  has_id : eqb (normalized_id id) [] ≡ false
  has_model : eqb model [] ≡ false
  has_conn : eqb conn [] ≡ false
  is_signed :
      sign_marker P config.auth_cache.signing_key
        (record { id = normalized_id id; consumer = consumer; model = model; conn = conn })
        (add64 now marker_ttl)
      ≡ some token

or-false : (a b c : Bool) → (a || b || c) ≡ false → (a ≡ false) × (b ≡ false)
or-false a b c h = ground arith

can-true : (a b : Bool) → (not a || not b) ≡ false → b ≡ true
can-true a b h = ground arith

apply_marker-IsMarked :
    (P : Primitives) (config : PluginConfig) (id : Identity) (model consumer conn token : Bytes)
    (now : ℤ)
    → apply_marker P config id model consumer conn now ≡ some token
    → IsMarked P config id model consumer conn token now
unfolding apply_marker marker_claims_for
apply_marker-IsMarked P config id model consumer conn token now h =
    elim (Bool-cases (not config.local_auth.enabled || not (can_sign config.auth_cache))) [
      | inl off ↦ absurd (none_is_some (rw off at h))
      | inr on ↦ elim (Bool-cases (eqb (normalized_id id) [] || eqb model [] || eqb consumer [])) [
        | inl missing ↦ absurd (none_is_some (rw (on, missing) at h))
        | inr filled ↦ elim (Bool-cases (eqb conn [])) [
          | inl cut ↦ absurd (none_is_some (rw (on, filled, cut) at h))
          | inr connected ↦
              let (has_id, has_model) =
                or-false (eqb (normalized_id id) []) (eqb model []) (eqb consumer []) filled in
              record {
                signs = can-true config.local_auth.enabled (can_sign config.auth_cache) on;
                has_id = has_id;
                has_model = has_model;
                has_conn = connected;
                is_signed = rw (on, filled, connected) at h;
              }
        ]
      ]
    ]

-- What a pass with the signed claims in the marker header finds in them.
resolve_from_marker-apply_marker :
    (P : Primitives) (config renewed : PluginConfig) (id : Identity)
    (model consumer conn token : Bytes) (now later : ℤ) (headers : List (Bytes × Bytes))
    → ((s : Bytes) → P.unbase64 (P.base64 s) ≡ some s)
    → ((s : Bytes) → count_byte b'.' (P.base64 s) ≡ 0)
    → ((p : MarkerPayload) (s : Bytes)
        → IsText p.claims
        → IsInt64 p.exp
        → P.marshal p ≡ some s
        → P.unmarshal s ≡ some p)
    → IsText (record { id = normalized_id id; consumer = consumer; model = model; conn = conn })
    → apply_marker P config id model consumer conn now ≡ some token
    → id.anonymous ≡ false
    → renewed.auth_cache ≡ config.auth_cache
    → extract_header P headers config.auth_cache.header ≡ token
    → eqb token [] ≡ false
    → extract_header P headers header_llm_model ≡ model
    → eq64 (add64 now marker_ttl) (pos 0) ≡ false
    → le64 (add64 now marker_ttl) later ≡ false
    → resolve_from_marker P renewed headers conn later ≡ (
        if identity_still_valid renewed (named id).0 (named id).1 later
        then some (restored id consumer)
        else none)
unfolding resolve_from_marker
resolve_from_marker-apply_marker P config renewed id model consumer conn token now later headers
      decodes no_dot reads text made known same carried filled for_model set unexpired =
    let marked = apply_marker-IsMarked P config id model consumer conn token now made in
    let (splits, unlike_anon) = split_normalized_id-normalized_id id known marked.has_id in
    let verified =
      verify_marker-sign_marker P config.auth_cache.signing_key token
        (record { id = normalized_id id; consumer = consumer; model = model; conn = conn })
        (add64 now marker_ttl) later decodes no_dot
        (λ s.
          reads
            (record {
              claims = record {
                id = normalized_id id;
                consumer = consumer;
                model = model;
                conn = conn;
              };
              exp = add64 now marker_ttl;
            })
            s text (add64-IsInt64 now marker_ttl))
        marked.is_signed set unexpired in
    rw same (
      rw (marked.signs, carried, filled, verified)
        (rw
          (
            for_model,
            marked.has_model,
            eqb_refl model,
            marked.has_conn,
            eqb_refl conn,
            unlike_anon,
            splits,
          )
          (if_not (identity_still_valid renewed (named id).0 (named id).1 later))))
  where
    if_not :
        (b : Bool)
        → (if not b then none else some (restored id consumer))
          ≡ (if b then some (restored id consumer) else none)
    if_not true = refl
    if_not false = refl

-- Where base64url decodes what it encoded and writes no `.`, JSON carries over a payload of UTF-8
-- texts with an int64 expiry, and the claims of the marker are UTF-8: a marker that a pass leaves
-- for a named identity is what the next pass of the request goes by, if that pass has it in the
-- marker header, is on the same connection and for the same model, and comes before the marker's
-- expiry, which is not the time 0. With local authentication enabled in the configuration of the
-- next pass, which may be another with the same marker header and key, the pass gives that identity
-- and the marker's consumer, with nothing written, if that configuration still has the identity;
-- otherwise it gives what the tiers after the marker give, and notes a rejected marker. With local
-- authentication disabled it gives no identity and notes a rejected marker.
pub resolve_identity-apply_marker :
    (P : Primitives) (config renewed : PluginConfig) (id : Identity)
    (model consumer conn token : Bytes) (now later : ℤ) (headers : List (Bytes × Bytes))
    (shared : Bytes → Option Bytes)
    → ((s : Bytes) → P.unbase64 (P.base64 s) ≡ some s)
    → ((s : Bytes) → count_byte b'.' (P.base64 s) ≡ 0)
    → ((p : MarkerPayload) (s : Bytes)
        → IsText p.claims
        → IsInt64 p.exp
        → P.marshal p ≡ some s
        → P.unmarshal s ≡ some p)
    → IsText (record { id = normalized_id id; consumer = consumer; model = model; conn = conn })
    → apply_marker P config id model consumer conn now ≡ some token
    → id.anonymous ≡ false
    → renewed.auth_cache ≡ config.auth_cache
    → extract_header P headers config.auth_cache.header ≡ token
    → eqb token [] ≡ false
    → extract_header P headers header_llm_model ≡ model
    → eq64 (add64 now marker_ttl) (pos 0) ≡ false
    → le64 (add64 now marker_ttl) later ≡ false
    → resolve_identity P renewed headers conn later shared ≡ (
        if not renewed.local_auth.enabled
        then (record no_identity { marker_rejected = true }, [])
        else if identity_still_valid renewed (named id).0 (named id).1 later
        then (restored id consumer, [])
        else note_rejected (or_keys P renewed headers conn later shared none))
unfolding resolve_identity resolve_identity_tiers
resolve_identity-apply_marker P config renewed id model consumer conn token now later headers shared
      decodes no_dot reads text made known same carried filled for_model set unexpired =
    let found =
      resolve_from_marker-apply_marker P config renewed id model consumer conn token now later
        headers decodes no_dot reads text made known same carried filled for_model set unexpired in
    let marked = apply_marker-IsMarked P config id model consumer conn token now made in
    let signs : can_sign renewed.auth_cache ≡ true = rw same marked.signs in
    let present : eqb (extract_header P headers renewed.auth_cache.header) [] ≡ false =
      rw same (rw carried filled) in
    let noted = with_marker_note-rejected P renewed headers conn later in
    elim (Bool-cases (not renewed.local_auth.enabled)) [
      | inl off ↦ rw off (noted (no_identity, []) refl signs present)
      | inr on ↦ elim (Bool-cases (identity_still_valid renewed (named id).0 (named id).1 later)) [
        | inl live ↦ rw (on, found, live) refl
        | inr stale ↦
            rw (on, found, stale)
              (noted (or_keys P renewed headers conn later shared none)
                (or_keys-NotMarker P renewed headers conn later shared) signs present)
      ]
    ]
