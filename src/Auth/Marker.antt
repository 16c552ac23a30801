-- ===== src/Auth/Marker.antt =====
-- marker.go: the signed marker that a decision leaves on the request.
pub mod Text
pub mod RoundTrip
use gpustack_higress_plugin.Common.{
  Bytes, Bool, true, false, Option, none, some, List, [], ◌∷◌, ◌++◌, ℤ, pos, codes, eqb, has_prefix,
  cut_at_last, length, drop, eq64, le64, not, ◌&&◌, ◌||◌, if◌then◌else◌,
}
use gpustack_higress_plugin.Auth.{
  MarkerClaims, MarkerPayload, Primitives, identity_prefix_access_key, identity_prefix_ref,
}

abbrev pub jwt_header_b64 : Bytes
jwt_header_b64 = codes "eyJhbGciOiJIUzI1NiIsInR5cCI6IkpXVCJ9"

-- Five minutes.
abbrev pub marker_ttl : ℤ
marker_ttl = pos 300

module _ (P : Primitives) where
  unfoldable pub marker_signature : Bytes → Bytes → Bytes
  marker_signature key signing_input = P.hmac_sha256 key signing_input

  abbrev pub signing_input_of : Bytes → Bytes
  signing_input_of payload = jwt_header_b64 ++ (b'.' ∷ P.base64 payload)

  abbrev signed : Bytes → Option Bytes → Option Bytes
  signed key none = none
  signed key (some payload) =
      let signing_input = signing_input_of payload in
      some (signing_input ++ (b'.' ∷ P.base64 (marker_signature key signing_input)))

  -- `none` is an error of json.Marshal.
  unfoldable pub sign_marker : Bytes → MarkerClaims → ℤ → Option Bytes
  unfolding marker_signature
  sign_marker key claims expires_at =
      signed key (P.marshal (record { claims = claims; exp = expires_at }))

  abbrev unexpired : ℤ → Option MarkerPayload → Option MarkerClaims
  unexpired now none = none
  unexpired now (some payload) =
      if eq64 payload.exp (pos 0) || le64 payload.exp now then none else some payload.claims

  abbrev payload_of : Option Bytes → Option MarkerPayload
  payload_of none = none
  payload_of (some json) = P.unmarshal json

  abbrev pub signature_checked : Bytes → ℤ → Bytes → Option Bytes → Option MarkerClaims
  signature_checked key now signing_input none = none
  signature_checked key now signing_input (some signature) =
      if not (eqb signature (marker_signature key signing_input))
      then none
      else unexpired now
          (payload_of (P.unbase64 (drop (length (jwt_header_b64 ++ (b'.' ∷ []))) signing_input)))

  abbrev pub parts_checked : Bytes → ℤ → Option (Bytes × Bytes) → Option MarkerClaims
  parts_checked key now none = none
  parts_checked key now (some (signing_input, signature_b64)) =
      if not (has_prefix signing_input (jwt_header_b64 ++ (b'.' ∷ [])))
      then none
      else signature_checked key now signing_input (P.unbase64 signature_b64)

  unfoldable pub verify_marker : Bytes → Bytes → ℤ → Option MarkerClaims
  unfolding marker_signature
  verify_marker key token now = parts_checked key now (cut_at_last b'.' token)

-- accessKey and ref of a normalized id; `none` where it has neither.
unfoldable pub split_normalized_id : Bytes → Option (Bytes × Bytes)
split_normalized_id id =
    if has_prefix id identity_prefix_access_key
    then (let access_key = drop (length identity_prefix_access_key) id in
        if eqb access_key [] then none else some (access_key, []))
    else if has_prefix id identity_prefix_ref
    then (let ref = drop (length identity_prefix_ref) id in
        if eqb ref [] then none else some ([], ref))
    else none
