-- ===== src/Acl/Redeclare.antt =====
-- Which rule a route gives to a name that it declares itself.
use gpustack_higress_plugin.Common.{
  ◌≡◌, ◌⊎◌, inl, inr, refl, sym, ap, subst, ◌∙◌, Bytes, Bool, true, false, Option, none, some, List,
  [], ◌∷◌, codes, eqb, eqb_iff, lookup, lookup-insert, not, ◌&&◌, Result, ok, err, Result-cases,
  Bool-cases, Option-cases, if◌then◌else◌,
}
use gpustack_higress_plugin.Json.{Gjson}
use gpustack_higress_plugin.Acl.Net.{NetText}
use gpustack_higress_plugin.Acl.{
  ConsumerAcl, ConsumerPattern, IpAclConfig, split_wildcard, or_acl, lookup_acl, deny_all_config,
}
use gpustack_higress_plugin.Acl.Config.{
  ConfigError, Override, replaced, with_pattern, override_consumer, parse_consumer_acl,
  override_consumers, assemble_override, assembled, inherited, parse_override_rule_config,
}

-- The rule that the last of the names equal to `name` gives.
abbrev rule_of : {E : Type 0} → Result E ConsumerAcl → Option ConsumerAcl
rule_of (err e) = none
rule_of (ok acl) = some acl

module _ {J : Type 0} (net : NetText) (G : Gjson J) (name : Bytes) where
  abbrev pub redeclared : List (Bytes × J) → Option ConsumerAcl
  redeclared [] = none
  redeclared ((n, rule) ∷ rest) =
      or_acl (redeclared rest)
        (if eqb n name then rule_of (parse_consumer_acl net G n rule) else none)

  abbrev ExactOf : Option ConsumerAcl → Result ConfigError Override → Type 0
  ExactOf acl (err e) = Unit
  ExactOf acl (ok o) = lookup name o.temp.exact ≡ acl

  or_acl_assoc : (a b c : Option ConsumerAcl) → or_acl (or_acl a b) c ≡ or_acl a (or_acl b c)
  or_acl_assoc none b c = refl
  or_acl_assoc (some x) b c = refl

  with_pattern-exact :
      (pattern : Bytes) (prefix : Bool) (acl : ConsumerAcl) (o : Override)
      (new : Option (List ConsumerPattern))
      → (with_pattern pattern prefix acl o new).temp.exact ≡ o.temp.exact
  with_pattern-exact pattern prefix acl o none = refl
  with_pattern-exact pattern prefix acl o (some new) = refl

  if_or :
      (b : Bool) (acl : ConsumerAcl) (later : Option ConsumerAcl)
      → (if b then some acl else later) ≡ or_acl (if b then some acl else none) later
  if_or true acl later = refl
  if_or false acl later = refl

  other_name :
      (n : Bytes) (place : Bytes × Bool)
      → split_wildcard n ≡ some place
      → split_wildcard name ≡ none
      → eqb n name ≡ false
  other_name n place starred plain = elim (Bool-cases (eqb n name)) [
    | inr h ↦ h
    | inl same ↦
        let e : some place ≡ none =
          sym starred ∙ ap split_wildcard ((eqb_iff n name).0 same) ∙ plain in
        absurd (cc)
  ]

  override_consumer-exact :
      (n : Bytes) (acl : ConsumerAcl) (o : Override)
      → split_wildcard name ≡ none
      → lookup name (override_consumer n acl (split_wildcard n) o).temp.exact
        ≡ or_acl (if eqb n name then some acl else none) (lookup name o.temp.exact)
  override_consumer-exact n acl o plain = elim (Option-cases (split_wildcard n)) [
    | inl exact ↦
        rw exact (
          lookup-insert n name acl o.temp.exact ∙ if_or (eqb n name) acl (lookup name o.temp.exact))
    | inr ((pattern, prefix), starred) ↦ rw starred (
        ap (λ m. lookup name m)
          (with_pattern-exact pattern prefix acl o (replaced pattern prefix acl o.temp.patterns))
        ∙ rw (other_name n (pattern, prefix) starred plain) refl)
  ]

  override_consumers-exact :
      (rules : List (Bytes × J)) (o : Override)
      → split_wildcard name ≡ none
      → ExactOf
          (or_acl (redeclared rules) (lookup name o.temp.exact))
          (override_consumers net G rules o)
  unfolding override_consumers
  override_consumers-exact [] o plain = refl
  override_consumers-exact ((n, rule) ∷ rest) o plain =
      elim (Result-cases (parse_consumer_acl net G n rule)) [
        | inl (e, bad) ↦ rw bad tt
        | inr (acl, good) ↦
            let next = override_consumer n acl (split_wildcard n) o in
            rw good (
              subst (λ a. ExactOf a (override_consumers net G rest next))
                (ap (or_acl (redeclared rest)) (override_consumer-exact n acl o plain)
                  ∙ sym (
                      or_acl_assoc (redeclared rest) (if eqb n name then some acl else none)
                        (lookup name o.temp.exact)))
                (override_consumers-exact rest next plain))
      ]

  first-exact :
      (acl : ConsumerAcl) (r : Result ConfigError Override)
      → ExactOf (some acl) r
      → (assembled r ≡ deny_all_config) ⊎ (lookup_acl (assembled r) name ≡ some acl)
  unfolding lookup_acl assemble_override
  first-exact acl (err e) h = inl refl
  first-exact acl (ok o) h = inr (rw h refl)

  -- Where a route declares a name without a pattern, its configuration is the deny-all one, or the
  -- name has the rule of the last of its declarations, whatever it has globally.
  pub parse_override_rule_config-redeclares :
      (json : J) (global : IpAclConfig) (acl : ConsumerAcl)
      → G.exists (G.get json (codes "consumers")) ≡ true
      → split_wildcard name ≡ none
      → redeclared (G.entries (G.get json (codes "consumers"))) ≡ some acl
      → (parse_override_rule_config net G json global ≡ deny_all_config)
        ⊎ (lookup_acl (parse_override_rule_config net G json global) name ≡ some acl)
  unfolding parse_override_rule_config
  parse_override_rule_config-redeclares json global acl present plain declared =
      let consumers = G.get json (codes "consumers") in
      let rules = G.entries consumers in
      let o = inherited net G json global in
      elim (Bool-cases (G.exists json && not (G.is_object json))) [
        | inl bad ↦ rw bad (inl refl)
        | inr good ↦ elim (Bool-cases (G.is_object consumers)) [
          | inr bad ↦ rw (good, present, bad) (inl refl)
          | inl object ↦
              rw (good, present, object)
                (first-exact acl (override_consumers net G rules o) (
                  subst (λ a. ExactOf a (override_consumers net G rules o))
                    (ap (λ d. or_acl d (lookup name o.temp.exact)) declared)
                    (override_consumers-exact rules o plain)))
        ]
      ]
