-- ===== src/Auth/Resolve/Tiers.antt =====
-- What the tiers after the marker answer with, and the note on a marker that was not honoured.
use gpustack_higress_plugin.Common.{
  ◌≡◌, refl, inl, inr, Bytes, Bool, true, false, Option, none, some, List, [], ℤ, eqb, any, lookup,
  length, not, ◌||◌, ◌==◌, Bool-cases,
}
use gpustack_higress_plugin.Auth.{
  Primitives, KeyEntry, PluginConfig, Identity, expired, can_sign, identity_still_valid,
  extract_header, credential_headers,
}
use gpustack_higress_plugin.Auth.Credential.{
  parse_api_key, verify_secret_key_digest, extract_credential, has_server_first_credential,
}
use gpustack_higress_plugin.Auth.Cache.{
  Writes, lookup_verification, checked_hit, resolve_from_verification_cache,
}
use gpustack_higress_plugin.Auth.Resolve.{
  is_public, verified_identity, found_key, resolve_from_keys, resolve_anonymous, or_none,
  or_anonymous, or_cache, or_keys, with_marker_note, is_from_marker,
}

-- The same answer, noted as one that a marker did not give although there was one.
abbrev pub note_rejected : Identity × Writes → Identity × Writes
note_rejected (id, writes) = (record id { marker_rejected = true }, writes)

module _ (P : Primitives) (config : PluginConfig) (headers : List (Bytes × Bytes)) (conn : Bytes)
    (now : ℤ) where
  abbrev NotMarker : Option Identity → Type 0
  NotMarker none = Unit
  NotMarker (some id) = is_from_marker P config headers conn now id.source ≡ false

  found_key-NotMarker :
      (access_key secret_key : Bytes) (entry : Option KeyEntry)
      → NotMarker (found_key P config headers conn now access_key secret_key entry)
  found_key-NotMarker access_key secret_key none = tt
  found_key-NotMarker access_key secret_key (some entry) =
      elim (Bool-cases (expired entry.exp now)) [
        | inl old ↦ rw old tt
        | inr live ↦ rw live (by_digest (verify_secret_key_digest P entry.digest secret_key))
      ]
    where
      by_digest :
          (match : Option Bool)
          → NotMarker (verified_identity P config headers conn now access_key entry match)
      by_digest none = refl
      by_digest (some false) = refl
      by_digest (some true) = refl

  resolve_from_keys-NotMarker : NotMarker (resolve_from_keys P config headers conn now)
  unfolding resolve_from_keys
  resolve_from_keys-NotMarker =
      let credential = extract_credential P headers in
      let (access_key, secret_key) = parse_api_key P credential in
      elim (Bool-cases (length config.local_auth.keys == 0)) [
        | inl empty ↦ rw empty tt
        | inr some_keys ↦ elim (Bool-cases (eqb credential [])) [
          | inl missing ↦ rw (some_keys, missing) tt
          | inr present ↦
              rw (some_keys, present)
                (found_key-NotMarker access_key secret_key
                  (lookup access_key config.local_auth.keys))
        ]
      ]

  checked_hit-NotMarker :
      (credential : Bytes) (hit : Option (Bytes × Bytes))
      → NotMarker (checked_hit P config now credential hit).0
  checked_hit-NotMarker credential none = tt
  checked_hit-NotMarker credential (some (ref, consumer)) =
      elim (Bool-cases (eqb ref [] || eqb consumer [])) [
        | inl missing ↦ rw missing tt
        | inr present ↦ elim (Bool-cases (not (identity_still_valid config [] ref now))) [
          | inl stale ↦ rw (present, stale) tt
          | inr live ↦ rw (present, live) refl
        ]
      ]

  from_cache-NotMarker :
      (shared : Bytes → Option Bytes)
      → NotMarker (resolve_from_verification_cache P config shared headers now).0
  unfolding resolve_from_verification_cache
  from_cache-NotMarker shared =
      let credential = extract_credential P headers in
      elim (Bool-cases (length config.local_auth.refs == 0)) [
        | inl empty ↦ rw empty tt
        | inr some_refs ↦ elim (Bool-cases (eqb credential [])) [
          | inl missing ↦ rw (some_refs, missing) tt
          | inr present ↦
              rw (some_refs, present)
                (checked_hit-NotMarker credential (lookup_verification P shared credential))
        ]
      ]

  or_none_anonymous-NotMarker :
      NotMarker (some (or_none (resolve_anonymous P config headers conn now)))
  unfolding resolve_anonymous
  or_none_anonymous-NotMarker =
      let named = any (λ name. not (eqb (extract_header P headers name) [])) credential_headers in
      elim (Bool-cases (not (is_public config))) [
        | inl closed ↦ rw closed refl
        | inr public ↦ elim (Bool-cases named) [
          | inl h ↦ rw (public, h) refl
          | inr h ↦ rw (public, h) refl
        ]
      ]

  or_anonymous-NotMarker :
      (o : Option Identity × Writes)
      → NotMarker o.0
      → NotMarker (some (or_anonymous P config headers conn now o).0)
  or_anonymous-NotMarker (some id, writes) h = h
  or_anonymous-NotMarker (none, writes) h = or_none_anonymous-NotMarker

  or_cache-NotMarker :
      (shared : Bytes → Option Bytes) (o : Option Identity)
      → NotMarker o
      → NotMarker (some (or_cache P config headers conn now shared o).0)
  or_cache-NotMarker shared (some id) h = h
  or_cache-NotMarker shared none h =
      or_anonymous-NotMarker (resolve_from_verification_cache P config shared headers now)
        (from_cache-NotMarker shared)

  -- No tier after the marker says that the marker was its source.
  pub or_keys-NotMarker :
      (shared : Bytes → Option Bytes)
      → is_from_marker P config headers conn now
          (or_keys P config headers conn now shared none).0.source
        ≡ false
  or_keys-NotMarker shared = elim (Bool-cases (has_server_first_credential P headers)) [
    | inl first ↦ rw first refl
    | inr later ↦ rw later (
        or_cache-NotMarker shared (resolve_from_keys P config headers conn now)
          resolve_from_keys-NotMarker)
  ]

  pub with_marker_note-rejected :
      (r : Identity × Writes)
      → is_from_marker P config headers conn now r.0.source ≡ false
      → can_sign config.auth_cache ≡ true
      → eqb (extract_header P headers config.auth_cache.header) [] ≡ false
      → with_marker_note P config headers conn now r ≡ note_rejected r
  with_marker_note-rejected (id, writes) other signs carried = rw (other, signs, carried) refl
