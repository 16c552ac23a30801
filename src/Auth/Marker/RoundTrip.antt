-- ===== src/Auth/Marker/RoundTrip.antt =====
-- Signing a marker and verifying it.
use gpustack_higress_plugin.Common.{
  ℕ, ◌≡◌, refl, subst, inl, inr, Bytes, true, false, none, some, [], ◌∷◌, ◌++◌, ℤ, pos, eqb_refl,
  count_byte, cut_at_last, has_prefix, length, drop, eq64, le64, ◌==◌, Option-cases, arith,
}
use gpustack_higress_plugin.Auth.{MarkerClaims, MarkerPayload, Primitives}
use gpustack_higress_plugin.Auth.Marker.{
  jwt_header_b64, marker_signature, signing_input_of, sign_marker, verify_marker,
}

cut_at_last-none : (b : ℕ) (s : Bytes) → count_byte b s ≡ 0 → cut_at_last b s ≡ none
cut_at_last-none b [] h = refl
cut_at_last-none b (c ∷ s) h =
    let (other, rest) = none_of b c s h in rw (cut_at_last-none b s rest, other) refl
  where
    none_of :
        (b c : ℕ) (s : Bytes) → count_byte b (c ∷ s) ≡ 0 → ((c == b) ≡ false) × (count_byte b s ≡ 0)
    none_of b c s h = ground arith

pub cut_at_last-append :
    (b : ℕ) (before after : Bytes)
    → count_byte b after ≡ 0
    → cut_at_last b (before ++ (b ∷ after)) ≡ some (before, after)
cut_at_last-append b [] after h = rw (cut_at_last-none b after h) (ground arith)
cut_at_last-append b (c ∷ before) after h = rw (cut_at_last-append b before after h) refl

pub none_is_some : {s : Bytes} → none ≡ some s → ⊥
none_is_some h = cc

some-inj : {x y : Bytes} → some x ≡ some y → x ≡ y
some-inj h = cc

module _ (P : Primitives) where
  strip_header :
      (payload : Bytes)
      → drop (length (jwt_header_b64 ++ (b'.' ∷ []))) (signing_input_of P payload)
        ≡ P.base64 payload
  strip_header payload = refl

  header_first :
      (payload : Bytes)
      → has_prefix (signing_input_of P payload) (jwt_header_b64 ++ (b'.' ∷ [])) ≡ true
  header_first payload = refl

  unfoldable pub token_of : Bytes → Bytes → Bytes
  token_of key json =
      signing_input_of P json
      ++ (b'.' ∷ P.base64 (marker_signature P key (signing_input_of P json)))

  verify_marker-token :
      (key json : Bytes) (p : MarkerPayload) (now : ℤ)
      → ((s : Bytes) → P.unbase64 (P.base64 s) ≡ some s)
      → ((s : Bytes) → count_byte b'.' (P.base64 s) ≡ 0)
      → P.unmarshal json ≡ some p
      → eq64 p.exp (pos 0) ≡ false
      → le64 p.exp now ≡ false
      → verify_marker P key (token_of key json) now ≡ some p.claims
  unfolding verify_marker token_of
  verify_marker-token key json p now decodes no_dot reads set later =
      let sum = marker_signature P key (signing_input_of P json) in
      rw (cut_at_last-append b'.' (signing_input_of P json) (P.base64 sum) (no_dot sum))
        (rw (decodes sum) (rw (eqb_refl sum, decodes json) (rw reads (rw (set, later) refl))))

  -- A marker that was signed verifies under the same key until it expires, and gives its claims back;
  -- base64url decodes what it encoded and writes no `.`, and JSON decodes this payload.
  pub verify_marker-sign_marker :
      (key token : Bytes) (claims : MarkerClaims) (expires_at now : ℤ)
      → ((s : Bytes) → P.unbase64 (P.base64 s) ≡ some s)
      → ((s : Bytes) → count_byte b'.' (P.base64 s) ≡ 0)
      → ((s : Bytes)
          → P.marshal (record { claims = claims; exp = expires_at }) ≡ some s
          → P.unmarshal s ≡ some (record { claims = claims; exp = expires_at }))
      → sign_marker P key claims expires_at ≡ some token
      → eq64 expires_at (pos 0) ≡ false
      → le64 expires_at now ≡ false
      → verify_marker P key token now ≡ some claims
  unfolding sign_marker token_of
  verify_marker-sign_marker key token claims expires_at now decodes no_dot reads made set later =
      let payload : MarkerPayload = record { claims = claims; exp = expires_at } in
      elim (Option-cases (P.marshal payload)) [
        | inl failed ↦ absurd (none_is_some (rw failed at made))
        | inr (json, encoded) ↦
            subst (λ t. verify_marker P key t now ≡ some claims) (some-inj (rw encoded at made))
              (verify_marker-token key json payload now decodes no_dot (reads json encoded) set
                later)
      ]
