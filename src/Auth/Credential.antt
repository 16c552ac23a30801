-- ===== src/Auth/Credential.antt =====
-- credential.go: the credential of a request, the parts of an API key, and the check of its secret.
use gpustack_higress_plugin.Common.{
  ℕ, Bytes, Bool, true, false, Option, none, some, List, [], ◌++◌, codes, eqb, has_prefix, cut_at,
  length, take, drop, ltb, leb, not, ◌&&◌, ◌==◌, if◌then◌else◌,
}
use gpustack_higress_plugin.Auth.{
  Primitives, extract_header, header_authorization, header_x_api_key, header_cookie,
}

abbrev pub api_key_prefix : Bytes
api_key_prefix = codes "gpustack"

abbrev pub digest_algorithm : Bytes
digest_algorithm = codes "sha256"

abbrev pub digest_truncated : Bytes
digest_truncated = codes "s128"

abbrev pub truncated_digest_bytes : ℕ
truncated_digest_bytes = 16

pub record SecretDigest : Type 0 where
  pub algorithm : Bytes
  pub salt : Bytes
  pub expected : Bytes

-- base64.RawURLEncoding.EncodedLen(16) and hex.EncodedLen(sha256.Size)
abbrev pub encoded_hash_len : Bytes → ℕ
encoded_hash_len algorithm = if eqb algorithm digest_truncated then 22 else 64

abbrev has_byte : Option (Bytes × Bytes) → Bool
has_byte none = false
has_byte (some parts) = true

abbrev checked_digest : Bytes → Bytes → Bytes → Option SecretDigest
checked_digest algorithm salt expected =
    if has_byte (cut_at b'$' expected)
    then none
    else if eqb salt []
    then none
    else if not (eqb algorithm digest_algorithm) && not (eqb algorithm digest_truncated)
    then none
    else if not (length expected == encoded_hash_len algorithm)
    then none
    else some (record { algorithm = algorithm; salt = salt; expected = expected })

abbrev digest_rest : Bytes → Option (Bytes × Bytes) → Option SecretDigest
digest_rest algorithm none = none
digest_rest algorithm (some (salt, expected)) = checked_digest algorithm salt expected

abbrev digest_parts : Option (Bytes × Bytes) → Option SecretDigest
digest_parts none = none
digest_parts (some (algorithm, rest)) = digest_rest algorithm (cut_at b'$' rest)

unfoldable pub parse_secret_key_digest : Bytes → Option SecretDigest
parse_secret_key_digest digest = digest_parts (cut_at b'$' digest)

module _ (P : Primitives) where
  abbrev pub encoded_sum : Bytes → Bytes → Bytes
  encoded_sum algorithm sum =
      if eqb algorithm digest_truncated
      then P.base64 (take truncated_digest_bytes sum)
      else P.hex sum

  abbrev matches_digest : Bytes → Option SecretDigest → Option Bool
  matches_digest secret_key none = none
  matches_digest secret_key (some d) =
      some (eqb (encoded_sum d.algorithm (P.sha256 (d.salt ++ secret_key))) d.expected)

  -- `none` is an unusable digest, `some` whether the secret matches.
  unfoldable pub verify_secret_key_digest : Bytes → Bytes → Option Bool
  unfolding parse_secret_key_digest
  verify_secret_key_digest digest secret_key =
      matches_digest secret_key (parse_secret_key_digest digest)

  unfoldable pub custom_key_hash : Bytes → Bytes
  custom_key_hash key = P.hex (P.blake2b_128 key)

  abbrev secret_part : Bytes → Option (Bytes × Bytes) → Bytes × Bytes
  secret_part key none = (custom_key_hash key, key)
  secret_part key (some (access_key, secret_key)) = (access_key, secret_key)

  abbrev key_parts : Bytes → Option (Bytes × Bytes) → Bytes × Bytes
  key_parts key none = (custom_key_hash key, key)
  key_parts key (some (prefix, rest)) = secret_part key (cut_at b'_' rest)

  unfoldable pub parse_api_key : Bytes → Bytes × Bytes
  unfolding custom_key_hash
  parse_api_key key =
      if has_prefix key (api_key_prefix ++ codes "_")
      then key_parts key (cut_at b'_' key)
      else (custom_key_hash key, key)

  abbrev pub bearer : Bytes
  bearer = codes "bearer "

  unfoldable pub extract_credential : List (Bytes × Bytes) → Bytes
  unfolding extract_header
  extract_credential headers =
      let authorization = extract_header P headers header_authorization in
      if not (eqb authorization [])
      then (if ltb (length bearer) (length authorization)
            && P.equal_fold (take (length bearer) authorization) bearer
          then P.trim_space (drop (length bearer) authorization)
          else [])
      else extract_header P headers header_x_api_key

  abbrev basic : Bytes
  basic = codes "basic "

  unfoldable pub has_server_first_credential : List (Bytes × Bytes) → Bool
  unfolding extract_header
  has_server_first_credential headers =
      let authorization = extract_header P headers header_authorization in
      if not (eqb (extract_header P headers header_cookie) [])
      then true
      else leb (length basic) (length authorization)
        && P.equal_fold (take (length basic) authorization) basic
