-- ===== src/Auth/Cache/Entries.antt =====
-- What a cached identity reads as after it was stored, and after it was evicted.
use gpustack_higress_plugin.Common.{
  ℕ, ◌≡◌, ◌≢◌, refl, Bytes, Bool, true, false, Option, none, some, [], ◌∷◌, ◌++◌, eqb, eqb_refl,
  eqb_iff, count_byte, cut_at, lookup, not, ◌||◌, ◌==◌, if◌then◌else◌, arith,
}
use gpustack_higress_plugin.Auth.{Primitives, PluginConfig}
use gpustack_higress_plugin.Auth.Cache.{
  Writes, has_ref, encode_verification, decode_verification, verification_cache_key,
  lookup_verification, store_verification, evict_verification,
}

-- The shared data after some writes.
abbrev pub written : Writes → (Bytes → Option Bytes) → Bytes → Option Bytes
written [] shared key = shared key
written ((k, v) ∷ rest) shared key = if eqb k key then some v else written rest shared key

cut_at-append :
    (b : ℕ) (before after : Bytes)
    → count_byte b before ≡ 0
    → cut_at b (before ++ (b ∷ after)) ≡ some (before, after)
cut_at-append b [] after h = ground arith
cut_at-append b (c ∷ before) after h =
    let (other, rest) = none_of b c before h in rw (other, cut_at-append b before after rest) refl
  where
    none_of :
        (b c : ℕ) (s : Bytes) → count_byte b (c ∷ s) ≡ 0 → ((c == b) ≡ false) × (count_byte b s ≡ 0)
    none_of b c s h = ground arith

decode_verification-encode_verification :
    (c : ℕ) (ref consumer : Bytes)
    → count_byte b'|' (c ∷ ref) ≡ 0
    → decode_verification (encode_verification (c ∷ ref) consumer) ≡ some (c ∷ ref, consumer)
unfolding decode_verification encode_verification
decode_verification-encode_verification c ref consumer h =
    rw (cut_at-append b'|' (c ∷ ref) consumer h) refl

eqb_of_ne : (s t : Bytes) → s ≢ t → eqb s t ≡ false
eqb_of_ne s t h = ground (arith, eqb_iff s t)

any_false :
    (a b c d : Bool) → a ≡ true → b ≡ false → c ≡ false → d ≡ false → (not a || b || c || d) ≡ false
any_false a b c d h i j k = ground arith

-- A stored identity is found again under its credential, where the configuration has its ref, which
-- is not empty and holds no `|`; an evicted one is not found.
pub lookup_verification-store_verification :
    (P : Primitives) (config : PluginConfig) (shared : Bytes → Option Bytes)
    (credential ref consumer : Bytes)
    → config.local_auth.enabled ≡ true
    → credential ≢ []
    → ref ≢ []
    → consumer ≢ []
    → has_ref (lookup ref config.local_auth.refs) ≡ true
    → count_byte b'|' ref ≡ 0
    → (lookup_verification P
          (written (store_verification P config credential ref consumer) shared)
          credential
        ≡ some (ref, consumer))
      × (lookup_verification P (written (evict_verification P credential) shared) credential ≡ none)
unfolding lookup_verification store_verification evict_verification encode_verification
lookup_verification-store_verification P config shared credential [] consumer on hc hr hn live
      plain =
    absurd (hr refl)
lookup_verification-store_verification P config shared credential (c ∷ ref) consumer on hc hr hn
      live plain =
    let key = verification_cache_key P credential in
    let present = eqb_of_ne credential [] hc in
    let guard =
      any_false config.local_auth.enabled (eqb credential []) (eqb (c ∷ ref) []) (eqb consumer [])
        on present refl (eqb_of_ne consumer [] hn) in
    (
      rw (guard, live, eqb_refl key)
          (unfold encode_verification in
            decode_verification-encode_verification c ref consumer plain),
      rw (present, eqb_refl key) refl,
    )
