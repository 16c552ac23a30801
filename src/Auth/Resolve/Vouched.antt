-- ===== src/Auth/Resolve/Vouched.antt =====
-- What stands behind an identity that the plugin resolves by itself.
use gpustack_higress_plugin.Common.{
  ◌≡◌, ◌⊎◌, refl, inl, inr, Bytes, Bool, true, false, Option, none, some, List, [], ℤ, eqb, any,
  lookup, length, not, ◌&&◌, ◌||◌, ◌==◌, Bool-cases, arith,
}
use gpustack_higress_plugin.Auth.{
  MarkerClaims, Primitives, KeyEntry, PluginConfig, Identity, resolved, rejected, unresolved,
  expired, can_sign, live_key, live_ref, identity_still_valid, identity_anonymous_id,
  extract_header, header_llm_model, credential_headers,
}
use gpustack_higress_plugin.Auth.Credential.{
  parse_api_key, verify_secret_key_digest, extract_credential, has_server_first_credential,
}
use gpustack_higress_plugin.Auth.Marker.{verify_marker, split_normalized_id}
use gpustack_higress_plugin.Auth.Cache.{
  Writes, lookup_verification, checked_hit, resolve_from_verification_cache,
}
use gpustack_higress_plugin.Auth.Resolve.{
  is_public, named_identity, claimed_identity, resolve_from_marker, verified_identity, found_key,
  resolve_from_keys, resolve_anonymous, or_none, or_anonymous, or_cache, or_keys,
  resolve_identity_tiers, with_marker_note, is_from_marker, resolve_identity,
}

module _ (P : Primitives) (config : PluginConfig) (headers : List (Bytes × Bytes)) (conn : Bytes)
    (now : ℤ) where
  -- Anonymous on a public route, or the name of a key or of a ref that is in the configuration and
  -- has not expired.
  abbrev pub IsVouched : Identity → Type 0
  IsVouched id =
      ((id.anonymous ≡ true) × (is_public config ≡ true))
      ⊎ ((live_key (lookup id.access_key config.local_auth.keys) now ≡ true)
          ⊎ (live_ref (lookup id.ref config.local_auth.refs) now ≡ true))

  -- A tier's answer, where it has one.
  abbrev Sound : Option Identity → Type 0
  Sound none = Unit
  Sound (some id) = id.state ≡ resolved → IsVouched id

  still_valid-live :
      (access_key ref : Bytes)
      → identity_still_valid config access_key ref now ≡ true
      → (live_key (lookup access_key config.local_auth.keys) now ≡ true)
        ⊎ (live_ref (lookup ref config.local_auth.refs) now ≡ true)
  unfolding identity_still_valid
  still_valid-live access_key ref h = elim (Bool-cases (not (eqb access_key []))) [
    | inl named ↦ inl (rw named at h)
    | inr unnamed ↦ inr (rw unnamed at h)
  ]

  not-true : (b : Bool) → not b ≡ false → b ≡ true
  not-true b h = ground arith

  named_identity-Sound :
      (claims : MarkerClaims) (place : Option (Bytes × Bytes))
      → Sound (named_identity P config headers conn now claims place)
  named_identity-Sound claims none = tt
  named_identity-Sound claims (some (access_key, ref)) =
      elim (Bool-cases (not (identity_still_valid config access_key ref now))) [
        | inl stale ↦ rw stale tt
        | inr live ↦ rw live (λ h. inr (still_valid-live access_key ref (not-true _ live)))
      ]

  claimed_identity-Sound :
      (claims : Option MarkerClaims) → Sound (claimed_identity P config headers conn now claims)
  claimed_identity-Sound none = tt
  claimed_identity-Sound (some claims) =
      let model = extract_header P headers header_llm_model in
      elim (Bool-cases (eqb claims.model [] || not (eqb claims.model model))) [
        | inl other ↦ rw other tt
        | inr same ↦ elim (Bool-cases (eqb claims.conn [] || not (eqb claims.conn conn))) [
          | inl other ↦ rw (same, other) tt
          | inr here ↦ elim (Bool-cases (eqb claims.id identity_anonymous_id)) [
            | inl anon ↦ elim (Bool-cases (not (is_public config))) [
              | inl closed ↦ rw (same, here, anon, closed) tt
              | inr public ↦ rw (same, here, anon, public) (λ h. inl (refl, not-true _ public))
            ]
            | inr named ↦
                rw (same, here, named) (named_identity-Sound claims (split_normalized_id claims.id))
          ]
        ]
      ]

  resolve_from_marker-Sound : Sound (resolve_from_marker P config headers conn now)
  unfolding resolve_from_marker
  resolve_from_marker-Sound =
      let raw = extract_header P headers config.auth_cache.header in
      elim (Bool-cases (not (can_sign config.auth_cache))) [
        | inl off ↦ rw off tt
        | inr on ↦ elim (Bool-cases (eqb raw [])) [
          | inl missing ↦ rw (on, missing) tt
          | inr present ↦
              rw (on, present)
                (claimed_identity-Sound (verify_marker P config.auth_cache.signing_key raw now))
        ]
      ]

  unresolved_is : {A : Type 0} → unresolved ≡ resolved → A
  unresolved_is h = absurd (cc)

  rejected_is : {A : Type 0} → rejected ≡ resolved → A
  rejected_is h = absurd (cc)

  found_key-Sound :
      (access_key secret_key : Bytes) (entry : Option KeyEntry)
      → lookup access_key config.local_auth.keys ≡ entry
      → Sound (found_key P config headers conn now access_key secret_key entry)
  found_key-Sound access_key secret_key none e = tt
  found_key-Sound access_key secret_key (some entry) e = elim (Bool-cases (expired entry.exp now)) [
    | inl old ↦ rw old tt
    | inr live ↦ rw live (go (verify_secret_key_digest P entry.digest secret_key) live)
  ]
    where
      go :
          (match : Option Bool)
          → expired entry.exp now ≡ false
          → Sound (verified_identity P config headers conn now access_key entry match)
      go none live = λ h. unresolved_is h
      go (some false) live = λ h. rejected_is h
      go (some true) live = λ h. inr (inl (rw (e, live) refl))

  resolve_from_keys-Sound : Sound (resolve_from_keys P config headers conn now)
  unfolding resolve_from_keys
  resolve_from_keys-Sound =
      let credential = extract_credential P headers in
      let (access_key, secret_key) = parse_api_key P credential in
      elim (Bool-cases (length config.local_auth.keys == 0)) [
        | inl empty ↦ rw empty tt
        | inr some_keys ↦ elim (Bool-cases (eqb credential [])) [
          | inl missing ↦ rw (some_keys, missing) tt
          | inr present ↦
              rw (some_keys, present)
                (found_key-Sound access_key secret_key (lookup access_key config.local_auth.keys)
                  refl)
        ]
      ]

  checked_hit-Sound :
      (credential : Bytes) (hit : Option (Bytes × Bytes))
      → Sound (checked_hit P config now credential hit).0
  checked_hit-Sound credential none = tt
  checked_hit-Sound credential (some (ref, consumer)) =
      elim (Bool-cases (eqb ref [] || eqb consumer [])) [
        | inl missing ↦ rw missing tt
        | inr present ↦ elim (Bool-cases (not (identity_still_valid config [] ref now))) [
          | inl stale ↦ rw (present, stale) tt
          | inr live ↦ rw (present, live) (λ h. inr (still_valid-live [] ref (not-true _ live)))
        ]
      ]

  from_cache-Sound :
      (shared : Bytes → Option Bytes)
      → Sound (resolve_from_verification_cache P config shared headers now).0
  unfolding resolve_from_verification_cache
  from_cache-Sound shared =
      let credential = extract_credential P headers in
      elim (Bool-cases (length config.local_auth.refs == 0)) [
        | inl empty ↦ rw empty tt
        | inr some_refs ↦ elim (Bool-cases (eqb credential [])) [
          | inl missing ↦ rw (some_refs, missing) tt
          | inr present ↦
              rw (some_refs, present)
                (checked_hit-Sound credential (lookup_verification P shared credential))
        ]
      ]

  resolve_anonymous-Sound : Sound (resolve_anonymous P config headers conn now)
  unfolding resolve_anonymous
  resolve_anonymous-Sound =
      let named = any (λ name. not (eqb (extract_header P headers name) [])) credential_headers in
      elim (Bool-cases (not (is_public config))) [
        | inl closed ↦ rw closed tt
        | inr public ↦ elim (Bool-cases named) [
          | inl h ↦ rw (public, h) tt
          | inr h ↦ rw (public, h) (λ e. inl (refl, not-true _ public))
        ]
      ]

  or_none-Sound : (o : Option Identity) → Sound o → Sound (some (or_none o))
  or_none-Sound none h = λ e. unresolved_is e
  or_none-Sound (some id) h = h

  or_anonymous-Sound :
      (o : Option Identity × Writes)
      → Sound o.0
      → Sound (some (or_anonymous P config headers conn now o).0)
  or_anonymous-Sound (some id, writes) h = h
  or_anonymous-Sound (none, writes) h =
      or_none-Sound (resolve_anonymous P config headers conn now) resolve_anonymous-Sound

  or_cache-Sound :
      (shared : Bytes → Option Bytes) (o : Option Identity)
      → Sound o
      → Sound (some (or_cache P config headers conn now shared o).0)
  or_cache-Sound shared (some id) h = h
  or_cache-Sound shared none h =
      or_anonymous-Sound (resolve_from_verification_cache P config shared headers now)
        (from_cache-Sound shared)

  or_keys-Sound :
      (shared : Bytes → Option Bytes) (o : Option Identity)
      → Sound o
      → Sound (some (or_keys P config headers conn now shared o).0)
  or_keys-Sound shared (some id) h = h
  or_keys-Sound shared none h = elim (Bool-cases (has_server_first_credential P headers)) [
    | inl first ↦ rw first (λ e. unresolved_is e)
    | inr later ↦ rw later (
        or_cache-Sound shared (resolve_from_keys P config headers conn now) resolve_from_keys-Sound)
  ]

  with_marker_note-Sound :
      (r : Identity × Writes)
      → Sound (some r.0)
      → Sound (some (with_marker_note P config headers conn now r).0)
  with_marker_note-Sound (id, writes) h =
      elim (Bool-cases (
        not (is_from_marker P config headers conn now id.source)
        && can_sign config.auth_cache
        && not (eqb (extract_header P headers config.auth_cache.header) []))) [
          | inl noted ↦ rw noted h
          | inr plain ↦ rw plain h
        ]

  -- Whatever the headers, the marker and the shared data hold, an identity that is resolved is either
  -- anonymous on a public route, or names a key or a ref that is in the configuration and has not
  -- expired.
  pub resolve_identity-IsVouched :
      (shared : Bytes → Option Bytes)
      → (resolve_identity P config headers conn now shared).0.state ≡ resolved
      → IsVouched (resolve_identity P config headers conn now shared).0
  unfolding resolve_identity resolve_identity_tiers
  resolve_identity-IsVouched shared =
      with_marker_note-Sound (resolve_identity_tiers P config headers conn now shared)
        (elim (Bool-cases (not config.local_auth.enabled)) [
          | inl off ↦ rw off (λ e. unresolved_is e)
          | inr on ↦ rw on (
              or_keys-Sound shared (resolve_from_marker P config headers conn now)
                resolve_from_marker-Sound)
        ])
