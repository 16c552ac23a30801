-- ===== src/Auth/Request/Asserted.antt =====
-- Which identity headers the server is sent.
use gpustack_higress_plugin.Common.{
  ◌≡◌, refl, ap, ◌∙◌, inl, inr, Bytes, Bool, true, false, Option, none, some, List, [], ◌∷◌, All,
  eqb, eqb_iff, eqb_refl, lookup, lookup-insert, leb, any, not, ◌&&◌, Bool-cases, if◌then◌else◌,
  arith,
}
use gpustack_higress_plugin.Auth.{
  Primitives, AuthCache, Identity, extract_header, header_authorization, header_x_api_key,
  header_cookie, credential_headers,
}
use gpustack_higress_plugin.Auth.Matcher.{MatchOps}
use gpustack_higress_plugin.Auth.Resolve.{is_resolved}
use gpustack_higress_plugin.Auth.Request.{
  Header, RequestInfo, AuthzHeaders, header_access_key, header_key_ref, header_mse_consumer,
  set_header, del_header, set_all, del_all, set_filled, asserted, described,
  build_authz_request_headers,
}

-- No letter from A to Z.
abbrev pub is_lower : Bytes → Bool
is_lower s = not (any (λ c. leb b'A' c && leb c b'Z') s)

-- The value where the identity is resolved by name and has one.
abbrev pub named_only : Identity → Bytes → Option (List Bytes)
named_only id value =
    if (is_resolved id.state && not id.anonymous) && not (eqb value [])
    then some (value ∷ [])
    else none

module _ (canonical : Bytes → Bytes) where
  lookup-del_header :
      (k name : Bytes) (h : Header)
      → lookup k (del_header canonical name h)
        ≡ (if eqb (canonical name) k then none else lookup k h)
  lookup-del_header k name [] = elim (Bool-cases (eqb (canonical name) k)) [
    | inl same ↦ rw same refl
    | inr other ↦ rw other refl
  ]
  lookup-del_header k name ((j, v) ∷ h) = elim (Bool-cases (eqb (canonical name) j)) [
    | inl gone ↦
        rw gone (lookup-del_header k name h ∙ hidden (canonical name) j k v (lookup k h) gone)
    | inr stays ↦ rw stays (
        ap (λ o. if eqb j k then some v else o) (lookup-del_header k name h)
        ∙ apart (canonical name) j k v (lookup k h) stays)
  ]
    where
      hidden :
          (n j k : Bytes) (v : List Bytes) (o : Option (List Bytes))
          → eqb n j ≡ true
          → (if eqb n k then none else o)
            ≡ (if eqb n k then none else if eqb j k then some v else o)
      hidden n j k v o h = ground (arith, eqb_iff n j, eqb_iff n k, eqb_iff j k)

      apart :
          (n j k : Bytes) (v : List Bytes) (o : Option (List Bytes))
          → eqb n j ≡ false
          → (if eqb j k then some v else if eqb n k then none else o)
            ≡ (if eqb n k then none else if eqb j k then some v else o)
      apart n j k v o h = ground (arith, eqb_iff n j, eqb_iff n k, eqb_iff j k)

  lookup-set_all :
      (k : Bytes) (es : List (Bytes × Bytes)) (h : Header)
      → All (λ e. eqb (canonical e.0) k ≡ false) es
      → lookup k (set_all canonical es h) ≡ lookup k h
  lookup-set_all k [] h other = refl
  lookup-set_all k ((name, value) ∷ es) h other =
      lookup-set_all k es (set_header canonical name value h) other.1
      ∙ lookup-insert (canonical name) k (value ∷ []) h
      ∙ rw (other.0) refl

  lookup-del_all :
      (k : Bytes) (names : List Bytes) (h : Header)
      → All (λ n. eqb (canonical n) k ≡ false) names
      → lookup k (del_all canonical names h) ≡ lookup k h
  lookup-del_all k [] h other = refl
  lookup-del_all k (name ∷ names) h other =
      lookup-del_all k names (del_header canonical name h) other.1
      ∙ lookup-del_header k name h
      ∙ rw (other.0) refl

  module _ (P : Primitives) (M : MatchOps) where
    lookup-set_filled :
        (k name value : Bytes) (h : Header)
        → eqb (canonical name) k ≡ false
        → lookup k (set_filled canonical P M name value h) ≡ lookup k h
    lookup-set_filled k name value h other = elim (Bool-cases (not (eqb value []))) [
      | inl filled ↦ rw filled (lookup-insert (canonical name) k (value ∷ []) h ∙ rw other refl)
      | inr empty ↦ rw empty refl
    ]

    filled_or : Bytes → Option (List Bytes) → Option (List Bytes)
    filled_or value o = if not (eqb value []) then some (value ∷ []) else o

    lookup-set_filled_same :
        (name value : Bytes) (h : Header)
        → lookup (canonical name) (set_filled canonical P M name value h)
          ≡ filled_or value (lookup (canonical name) h)
    unfolding filled_or
    lookup-set_filled_same name value h = elim (Bool-cases (not (eqb value []))) [
      | inl filled ↦ rw filled (
          lookup-insert (canonical name) (canonical name) (value ∷ []) h
          ∙ rw (eqb_refl (canonical name)) refl)
      | inr empty ↦ rw empty refl
    ]

    module _
        (tells : (a b : Bytes)
          → is_lower a ≡ true
          → is_lower b ≡ true
          → eqb (canonical a) (canonical b) ≡ eqb a b)
        (headers : List (Bytes × Bytes)) (id : Identity) where
      asserted-access_key :
          (h : Header)
          → lookup (canonical header_access_key) h ≡ none
          → lookup (canonical header_access_key) (asserted canonical P M headers id h)
            ≡ named_only id id.access_key
      unfolding asserted filled_or
      asserted-access_key h absent = elim (Bool-cases (is_resolved id.state && not id.anonymous)) [
        | inl named ↦ rw named (
            lookup-set_filled (canonical header_access_key) header_key_ref id.ref
              (set_filled canonical P M header_access_key id.access_key
                (del_all canonical credential_headers h))
              (tells header_key_ref header_access_key refl refl)
            ∙ lookup-set_filled_same header_access_key id.access_key
                (del_all canonical credential_headers h)
            ∙ ap (filled_or id.access_key) (
                lookup-del_all (canonical header_access_key) credential_headers h (
                  tells header_authorization header_access_key refl refl,
                  (
                    tells header_x_api_key header_access_key refl refl,
                    (tells header_cookie header_access_key refl refl, tt),
                  ),
                )
                ∙ absent))
        | inr unnamed ↦ rw unnamed (
            lookup-set_filled (canonical header_access_key) header_authorization
              (extract_header P headers header_authorization) h
              (tells header_authorization header_access_key refl refl)
            ∙ absent)
      ]

      asserted-key_ref :
          (h : Header)
          → lookup (canonical header_key_ref) h ≡ none
          → lookup (canonical header_key_ref) (asserted canonical P M headers id h)
            ≡ named_only id id.ref
      unfolding asserted filled_or
      asserted-key_ref h absent = elim (Bool-cases (is_resolved id.state && not id.anonymous)) [
        | inl named ↦ rw named (
            lookup-set_filled_same header_key_ref id.ref (
              set_filled canonical P M header_access_key id.access_key
                (del_all canonical credential_headers h))
            ∙ ap (filled_or id.ref) (
                lookup-set_filled (canonical header_key_ref) header_access_key id.access_key
                  (del_all canonical credential_headers h)
                  (tells header_access_key header_key_ref refl refl)
                ∙ lookup-del_all (canonical header_key_ref) credential_headers h (
                  tells header_authorization header_key_ref refl refl,
                  (
                    tells header_x_api_key header_key_ref refl refl,
                    (tells header_cookie header_key_ref refl refl, tt),
                  ),
                )
                ∙ absent))
        | inr unnamed ↦ rw unnamed (
            lookup-set_filled (canonical header_key_ref) header_authorization
              (extract_header P headers header_authorization) h
              (tells header_authorization header_key_ref refl refl)
            ∙ absent)
      ]

      -- None of the headers that describe the request is one of these three.
      described_apart :
          (info : RequestInfo) (name : Bytes)
          → is_lower name ≡ true
          → All (λ e. eqb e.0 name ≡ false) (described info)
          → All (λ e. eqb (canonical e.0) (canonical name) ≡ false) (described info)
      described_apart info name lower (a, (b, (c, (d, (e, (f, g)))))) = (
        tells _ name refl lower ∙ a,
        (
          tells _ name refl lower ∙ b,
          (
            tells _ name refl lower ∙ c,
            (
              tells _ name refl lower ∙ d,
              (tells _ name refl lower ∙ e, (tells _ name refl lower ∙ f, tt)),
            ),
          ),
        ),
      )

      asserted-consumer :
          (h : Header)
          → lookup (canonical header_mse_consumer) h ≡ none
          → lookup (canonical header_mse_consumer) (asserted canonical P M headers id h) ≡ none
      unfolding asserted
      asserted-consumer h absent = elim (Bool-cases (is_resolved id.state && not id.anonymous)) [
        | inl named ↦ rw named (
            lookup-set_filled (canonical header_mse_consumer) header_key_ref id.ref
              (set_filled canonical P M header_access_key id.access_key
                (del_all canonical credential_headers h))
              (tells header_key_ref header_mse_consumer refl refl)
            ∙ lookup-set_filled (canonical header_mse_consumer) header_access_key id.access_key
                (del_all canonical credential_headers h)
                (tells header_access_key header_mse_consumer refl refl)
            ∙ lookup-del_all (canonical header_mse_consumer) credential_headers h (
              tells header_authorization header_mse_consumer refl refl,
              (
                tells header_x_api_key header_mse_consumer refl refl,
                (tells header_cookie header_mse_consumer refl refl, tt),
              ),
            )
            ∙ absent)
        | inr unnamed ↦ rw unnamed (
            lookup-set_filled (canonical header_mse_consumer) header_authorization
              (extract_header P headers header_authorization) h
              (tells header_authorization header_mse_consumer refl refl)
            ∙ absent)
      ]

      -- The three names that are deleted.
      abbrev stripped_names : List Bytes
      stripped_names = header_access_key ∷ header_key_ref ∷ header_mse_consumer ∷ []

      deleted :
          (k : Bytes) (h : Header)
          → any (λ n. eqb (canonical n) k) stripped_names ≡ true
          → lookup k (del_all canonical stripped_names h) ≡ none
      deleted k h found =
          lookup-del_header k header_mse_consumer
            (del_header canonical header_key_ref (del_header canonical header_access_key h))
          ∙ ap (λ o. if eqb (canonical header_mse_consumer) k then none else o)
              (lookup-del_header k header_key_ref (del_header canonical header_access_key h)
                ∙ ap (λ o. if eqb (canonical header_key_ref) k then none else o)
                    (lookup-del_header k header_access_key h))
          ∙ one_of (eqb (canonical header_access_key) k) (eqb (canonical header_key_ref) k)
              (eqb (canonical header_mse_consumer) k) (lookup k h) found
        where
          one_of :
              (a b c : Bool) (o : Option (List Bytes))
              → (if a then true else if b then true else if c then true else false) ≡ true
              → (if c then none else if b then none else if a then none else o) ≡ none
          one_of a b c o h = ground arith

      -- Whatever headers the client and the configuration send along, the server reads an access key
      -- or a key reference only where the plugin resolved that identity by name, and no consumer; the
      -- canonical form tells lower-case names apart.
      pub build_authz_request_headers-asserted :
          (authz : AuthzHeaders) (cache : AuthCache) (info : RequestInfo) (conn : Bytes)
          → (lookup
                (canonical header_access_key)
                (build_authz_request_headers canonical P M authz cache info headers id conn)
              ≡ named_only id id.access_key)
            × (lookup
                  (canonical header_key_ref)
                  (build_authz_request_headers canonical P M authz cache info headers id conn)
                ≡ named_only id id.ref)
            × (lookup
                  (canonical header_mse_consumer)
                  (build_authz_request_headers canonical P M authz cache info headers id conn)
                ≡ none)
      unfolding build_authz_request_headers
      build_authz_request_headers-asserted authz cache info conn = (
        lookup-set_all _ (described info) _ (
              described_apart info header_access_key refl
                (refl, (refl, (refl, (refl, (refl, (refl, tt)))))))
            ∙ asserted-access_key _
                (deleted (canonical header_access_key) _ (here_1 header_access_key)),
        lookup-set_all _ (described info) _ (
              described_apart info header_key_ref refl
                (refl, (refl, (refl, (refl, (refl, (refl, tt)))))))
            ∙ asserted-key_ref _ (deleted (canonical header_key_ref) _ here_2),
        lookup-set_all _ (described info) _ (
              described_apart info header_mse_consumer refl
                (refl, (refl, (refl, (refl, (refl, (refl, tt)))))))
            ∙ asserted-consumer _ (deleted (canonical header_mse_consumer) _ here_3),
      )
        where
          here_1 :
              (n : Bytes)
              → any
                  (λ m. eqb (canonical m) (canonical n))
                  (n ∷ header_key_ref ∷ header_mse_consumer ∷ [])
                ≡ true
          here_1 n = rw (eqb_refl (canonical n)) refl

          or-last : (a b : Bool) → (if a then true else if b then true else true) ≡ true
          or-last a b = ground arith

          here_2 : any (λ m. eqb (canonical m) (canonical header_key_ref)) stripped_names ≡ true
          here_2 =
              rw (eqb_refl (canonical header_key_ref))
                (or-last (eqb (canonical header_access_key) (canonical header_key_ref)) true)

          here_3 :
              any (λ m. eqb (canonical m) (canonical header_mse_consumer)) stripped_names ≡ true
          here_3 = rw (eqb_refl (canonical header_mse_consumer)) (
              or-last (eqb (canonical header_access_key) (canonical header_mse_consumer))
                (eqb (canonical header_key_ref) (canonical header_mse_consumer)))
