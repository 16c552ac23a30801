-- ===== src/Auth/Cache.antt =====
-- verification.go: the cache of identities in the host's shared data.
pub mod Entries
use gpustack_higress_plugin.Common.{
  Bytes, Bool, true, false, Option, none, some, List, [], ◌∷◌, ◌++◌, ℤ, codes, eqb, cut_at, lookup,
  length, not, ◌&&◌, ◌||◌, ◌==◌, if◌then◌else◌,
}
use gpustack_higress_plugin.Auth.{
  Primitives, PluginConfig, RefEntry, Identity, no_identity, resolved, source_cache,
  identity_still_valid,
}
use gpustack_higress_plugin.Auth.Credential.{extract_credential}

abbrev pub verification_key_prefix : Bytes
verification_key_prefix = codes "gpustack-ext-auth:v:"

unfoldable pub encode_verification : Bytes → Bytes → Bytes
encode_verification ref consumer = ref ++ (b'|' ∷ consumer)

abbrev with_ref : Option (Bytes × Bytes) → Option (Bytes × Bytes)
with_ref none = none
with_ref (some ([], consumer)) = none
with_ref (some (c ∷ ref, consumer)) = some (c ∷ ref, consumer)

unfoldable pub decode_verification : Bytes → Option (Bytes × Bytes)
decode_verification raw = with_ref (cut_at b'|' raw)

abbrev pub has_ref : Option RefEntry → Bool
has_ref none = false
has_ref (some entry) = true

-- A write to the shared data: the key and the value (SetSharedData without a CAS number).
abbrev pub Writes : Type 0
Writes = List (Bytes × Bytes)

module _ (P : Primitives) where
  abbrev pub verification_cache_key : Bytes → Bytes
  verification_cache_key credential = verification_key_prefix ++ P.hex (P.sha256 credential)

  abbrev pub read_verification : Option Bytes → Option (Bytes × Bytes)
  read_verification none = none
  read_verification (some []) = none
  read_verification (some (c ∷ raw)) = decode_verification (c ∷ raw)

  -- `shared` is GetSharedData; `none` is an error.
  unfoldable pub lookup_verification : (Bytes → Option Bytes) → Bytes → Option (Bytes × Bytes)
  unfolding decode_verification
  lookup_verification shared credential =
      read_verification (shared (verification_cache_key credential))

  unfoldable pub store_verification : PluginConfig → Bytes → Bytes → Bytes → Writes
  unfolding encode_verification
  store_verification config credential ref consumer =
      if not config.local_auth.enabled || eqb credential [] || eqb ref [] || eqb consumer []
      then []
      else if not (has_ref (lookup ref config.local_auth.refs))
      then []
      else (verification_cache_key credential, encode_verification ref consumer) ∷ []

  unfoldable pub evict_verification : Bytes → Writes
  evict_verification credential =
      if eqb credential [] then [] else (verification_cache_key credential, []) ∷ []

  -- An identity, or none, and what was written.
  abbrev pub checked_hit :
      PluginConfig → ℤ → Bytes → Option (Bytes × Bytes) → Option Identity × Writes
  checked_hit config now credential none = (none, [])
  checked_hit config now credential (some (ref, consumer)) =
      if eqb ref [] || eqb consumer []
      then (none, [])
      else if not (identity_still_valid config [] ref now)
      then (none, evict_verification credential)
      else (
        some (record no_identity {
          state = resolved;
          source = source_cache;
          ref = ref;
          consumer = consumer;
        }),
        [],
      )

  unfoldable pub resolve_from_verification_cache :
      PluginConfig → (Bytes → Option Bytes) → List (Bytes × Bytes) → ℤ → Option Identity × Writes
  unfolding extract_credential lookup_verification evict_verification identity_still_valid
  resolve_from_verification_cache config shared headers now =
      let credential = extract_credential P headers in
      if length config.local_auth.refs == 0
      then (none, [])
      else if eqb credential []
      then (none, [])
      else checked_hit config now credential (lookup_verification shared credential)
