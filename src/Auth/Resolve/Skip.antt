-- ===== src/Auth/Resolve/Skip.antt =====
-- When a request passes without the server being asked.
use gpustack_higress_plugin.Common.{
  ◌≡◌, ◌⊎◌, inl, inr, Bytes, Bool, true, false, Option, none, some, List, [], ℤ, eqb, not, ◌||◌,
  Bool-cases, Option-cases, arith,
}
use gpustack_higress_plugin.Auth.{
  Primitives, PluginConfig, Identity, IdentityState, resolved, rejected, unresolved,
  access_policy_authed, extract_header, header_llm_model, is_unrestricted,
}
use gpustack_higress_plugin.Auth.Resolve.{
  is_public, is_resolved, resolve_identity, authed_skip_eligible, local_skip_consumer,
  matches_route, AuthStep, not_covered, reply, allowed, asks, decided_on, decided_at,
  on_http_request_headers,
}

-- What lets a request of a route that is not public pass.
pub record IsOpen (config : PluginConfig) (id : Identity) (model : Bytes) (now : ℤ) : Type 0 where
  pub is_authed : eqb config.access_policy access_policy_authed ≡ true
  pub is_known : is_resolved id.state ≡ true
  pub is_named : id.anonymous ≡ false
  pub has_model : eqb model [] ≡ false
  pub is_open : is_unrestricted config.local_auth id now ≡ true

eligible_parts : (a b c : Bool) → (not a || b || c) ≡ false → (a ≡ true) × (b ≡ false) × (c ≡ false)
eligible_parts a b c h = ground arith

none_is : {c : Bytes} {A : Type 0} → none ≡ some c → A
none_is h = absurd (cc)

authed_skip_eligible-IsOpen :
    (config : PluginConfig) (id : Identity) (model : Bytes) (now : ℤ)
    → eqb config.access_policy access_policy_authed ≡ true
    → authed_skip_eligible config id model now ≡ true
    → IsOpen config id model now
unfolding authed_skip_eligible
authed_skip_eligible-IsOpen config id model now authed h =
    elim (Bool-cases (not (is_resolved id.state) || id.anonymous || eqb model [])) [
      | inl shut ↦ absurd (false_is (rw shut at h))
      | inr pass ↦
          let (known, named, with_model) =
            eligible_parts (is_resolved id.state) id.anonymous (eqb model []) pass in
          record {
            is_authed = authed;
            is_known = known;
            is_named = named;
            has_model = with_model;
            is_open = rw pass at h;
          }
    ]
  where
    false_is : false ≡ true → ⊥
    false_is h = cc

not-true : (b : Bool) → not b ≡ false → b ≡ true
not-true b h = ground arith

local_skip_consumer-IsOpen :
    (config : PluginConfig) (id : Identity) (model consumer : Bytes) (now : ℤ)
    → is_public config ≡ false
    → local_skip_consumer config id model now ≡ some consumer
    → IsOpen config id model now
unfolding local_skip_consumer
local_skip_consumer-IsOpen config id model consumer now closed h =
    elim (Bool-cases (eqb config.access_policy access_policy_authed)) [
      | inr other ↦ none_is (rw (closed, other) at h)
      | inl authed ↦ elim (Bool-cases (not (authed_skip_eligible config id model now))) [
        | inl shut ↦ none_is (rw (closed, authed, shut) at h)
        | inr eligible ↦
            authed_skip_eligible-IsOpen config id model now authed (not-true _ eligible)
      ]
    ]

-- Whether the outcome lets the request pass without the server being asked: under a consumer's
-- name, or untouched.
abbrev pub passes_unasked : AuthStep → Bool
passes_unasked (allowed consumer marker) = true
passes_unasked not_covered = true
passes_unasked (reply status) = false
passes_unasked (asks id) = false

module _ (P : Primitives) (config : PluginConfig) (conn : Bytes) (now : ℤ) where
  false_passes : {A : Type 0} → false ≡ true → A
  false_passes h = absurd (cc)

  decided_on-IsOpen :
      (headers : List (Bytes × Bytes)) (id : Identity)
      → is_public config ≡ false
      → passes_unasked (decided_on P config conn now headers id) ≡ true
      → IsOpen config id (extract_header P headers header_llm_model) now
  decided_on-IsOpen headers id closed h =
      let model = extract_header P headers header_llm_model in
      elim (Option-cases (local_skip_consumer config id model now)) [
        | inl none_found ↦ false_passes (rw none_found at h)
        | inr (consumer, found) ↦
            local_skip_consumer-IsOpen config id model consumer now closed found
      ]

  decided_at-IsOpen :
      (headers : List (Bytes × Bytes)) (id : Identity) (state : IdentityState)
      → is_public config ≡ false
      → passes_unasked (decided_at P config conn now headers id state) ≡ true
      → IsOpen config id (extract_header P headers header_llm_model) now
  decided_at-IsOpen headers id rejected closed h = false_passes (rw closed at h)
  decided_at-IsOpen headers id resolved closed h = decided_on-IsOpen headers id closed h
  decided_at-IsOpen headers id unresolved closed h = decided_on-IsOpen headers id closed h

  -- Where the policy is not public, a request passes without the server being asked only if no
  -- route expression of the plugin matches the name of its route, or the policy is the authed one,
  -- the caller is resolved by name, the request names a model, and the caller's entry in the
  -- configuration is unexpired and unrestricted.
  pub on_http_request_headers-IsOpen :
      (route_name : Bytes) (shared : Bytes → Option Bytes) (headers : Option (List (Bytes × Bytes)))
      → is_public config ≡ false
      → passes_unasked (on_http_request_headers P config conn now route_name shared headers).0
        ≡ true
      → (matches_route config.route_match_regexes route_name ≡ false)
        ⊎ ((sent : List (Bytes × Bytes)) × (headers ≡ some sent)
            × IsOpen config
                (resolve_identity P config sent conn now shared).0
                (extract_header P sent header_llm_model)
                now)
  unfolding on_http_request_headers
  on_http_request_headers-IsOpen route_name shared headers closed h =
      elim (Bool-cases (matches_route config.route_match_regexes route_name)) [
        | inr outside ↦ inl outside
        | inl inside ↦ elim (Bool-cases (not config.authz_ready)) [
          | inl unready ↦ false_passes (rw (inside, unready) at h)
          | inr ready ↦ elim (Option-cases headers) [
            | inl unread ↦ false_passes (rw (inside, ready, unread) at h)
            | inr (sent, e) ↦
                let id = (resolve_identity P config sent conn now shared).0 in
                inr
                  (sent, e, decided_at-IsOpen sent id id.state closed (rw (inside, ready, e) at h))
          ]
        ]
      ]
