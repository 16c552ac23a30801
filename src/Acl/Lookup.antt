-- ===== src/Acl/Lookup.antt =====
-- How names with a `*` are read, and which rule a consumer has under a route's configuration.
use gpustack_higress_plugin.Common.{
  ℕ, ◌-◌, ◌≡◌, ◌≢◌, ◌⊎◌, inl, inr, refl, sym, ap, ◌∙◌, Bytes, Bool, true, false, Option, none, some,
  List, [], ◌∷◌, ◌++◌, All, codes, eqb, eqb_iff, has_prefix, has_suffix, count_byte, length,
  length-append, drop, take, lookup, lookup-insert, not, ◌&&◌, ◌==◌, Result-cases, Bool-cases,
  if◌then◌else◌, arith,
}
use gpustack_higress_plugin.Json.{Gjson}
use gpustack_higress_plugin.Acl.Net.{NetText}
use gpustack_higress_plugin.Acl.{
  ConsumerAcl, ConsumerPattern, IpAclConfig, star, split_wildcard, first_match, pattern_matches,
  or_acl, lookup_acl, deny_all_config,
}
use gpustack_higress_plugin.Acl.Config.{
  Override, replaced, behind, same_bool, with_pattern, override_consumer, parse_consumer_acl,
  override_consumers, assemble_override, assembled, inherited, parse_override_rule_config,
}

count_star : (p : Bytes) → count_byte star p ≡ 0 → count_byte star (p ++ codes "*") ≡ 1
count_star [] h = refl
count_star (c ∷ p) h = ground (arith, count_star p)

last_at : (p : Bytes) (b : ℕ) → length (p ++ (b ∷ [])) - 1 ≡ length p
last_at p b = omega (arith, length-append p (b ∷ []))

take-length : (p t : Bytes) → take (length p) (p ++ t) ≡ p
take-length [] t = refl
take-length (c ∷ p) t = ap (λ l. c ∷ l) (take-length p t)

drop-length : (p t : Bytes) → drop (length p) (p ++ t) ≡ t
drop-length [] t = refl
drop-length (c ∷ p) t = drop-length p t

ends_with_star : (p : Bytes) → has_suffix (p ++ codes "*") (codes "*") ≡ true
ends_with_star p =
    rw (last_at p star)
      (rw (drop-length p (codes "*")) (ground (arith, length-append p (codes "*"))))

other_head : (c : ℕ) (p : Bytes) → count_byte star (c ∷ p) ≡ 0 → (c == star) ≡ false
other_head c p h = ground arith

-- A name without `*`, with one put behind it or, where it is not empty, before it, is read back with
-- the place of the `*`.
pub split_wildcard-star :
    (p : Bytes)
    → count_byte star p ≡ 0
    → (split_wildcard (p ++ codes "*") ≡ some (p, true))
      × (p ≢ [] → split_wildcard (codes "*" ++ p) ≡ some (p, false))
unfolding split_wildcard
split_wildcard-star [] h = (refl, λ ne. absurd (ne refl))
split_wildcard-star (c ∷ p) h = (
  rw (count_star (c ∷ p) h, other_head c p h, ends_with_star (c ∷ p), last_at (c ∷ p) star)
      (ap (λ l. some (c ∷ l, true)) (take-length p (codes "*"))),
  λ ne. rw h refl,
)

-- Whether a name of a route's `consumers` is this consumer's, or a pattern that matches it.
abbrev matches_name : Bytes → Bytes → Bool → Bool
matches_name consumer pattern prefix =
    if prefix then has_prefix consumer pattern else has_suffix consumer pattern

abbrev concerns_of : Bytes → Bytes → Option (Bytes × Bool) → Bool
concerns_of consumer name none = eqb name consumer
concerns_of consumer name (some (pattern, prefix)) = matches_name consumer pattern prefix

abbrev pub concerns : Bytes → Bytes → Bool
concerns consumer name = concerns_of consumer name (split_wildcard name)

and-true : (a b : Bool) → (a && b) ≡ true → (a ≡ true) × (b ≡ true)
and-true a b h = ground arith

module _ (consumer : Bytes) where
  first_match-append :
      (new old : List ConsumerPattern)
      → first_match consumer (new ++ old)
        ≡ or_acl (first_match consumer new) (first_match consumer old)
  first_match-append [] old = refl
  first_match-append (p ∷ new) old = elim (Bool-cases (pattern_matches consumer p)) [
    | inl h ↦ rw h refl
    | inr h ↦ rw h (first_match-append new old)
  ]

  same_bool-eq : (a b : Bool) → same_bool a b ≡ true → a ≡ b
  same_bool-eq true b h = sym h
  same_bool-eq false true h = absurd (cc)
  same_bool-eq false false h = refl

  Keeps : Option (List ConsumerPattern) → List ConsumerPattern → Type 0
  Keeps none old = Unit
  Keeps (some new) old = first_match consumer new ≡ first_match consumer old

  behind-Keeps :
      (p : ConsumerPattern) (new : Option (List ConsumerPattern)) (old : List ConsumerPattern)
      → Keeps new old
      → Keeps (behind p new) (p ∷ old)
  unfolding Keeps
  behind-Keeps p none old h = tt
  behind-Keeps p (some new) old h =
      ap (λ later. if pattern_matches consumer p then some p.acl else later) h

  unmatched :
      (pattern : Bytes) (prefix : Bool) (p : ConsumerPattern)
      → matches_name consumer pattern prefix ≡ false
      → (eqb p.pattern pattern && same_bool p.prefix prefix) ≡ true
      → matches_name consumer p.pattern p.prefix ≡ false
  unmatched pattern prefix p h same =
      let (text, place) = and-true (eqb p.pattern pattern) (same_bool p.prefix prefix) same in
      ap (λ b. matches_name consumer p.pattern b) (same_bool-eq p.prefix prefix place)
      ∙ ap (λ t. matches_name consumer t prefix) ((eqb_iff p.pattern pattern).0 text)
      ∙ h

  replaced-Keeps :
      (pattern : Bytes) (prefix : Bool) (acl : ConsumerAcl) (old : List ConsumerPattern)
      → matches_name consumer pattern prefix ≡ false
      → Keeps (replaced pattern prefix acl old) old
  unfolding Keeps
  replaced-Keeps pattern prefix acl [] h = tt
  replaced-Keeps pattern prefix acl (p ∷ old) h =
      elim (Bool-cases (eqb p.pattern pattern && same_bool p.prefix prefix)) [
        | inl same ↦ rw same (rw (unmatched pattern prefix p h same) refl)
        | inr other ↦ rw other (
            behind-Keeps p (replaced pattern prefix acl old) old
              (replaced-Keeps pattern prefix acl old h))
      ]

  -- What a route that does not concern the consumer keeps of the configuration that it started from.
  record IsUntouched (config : IpAclConfig) (o : Override) : Type 0 where
    same_exact : lookup consumer o.temp.exact ≡ lookup consumer config.exact
    same_patterns : first_match consumer o.temp.patterns ≡ first_match consumer config.patterns
    no_new : first_match consumer o.new_patterns ≡ none

  with_pattern-IsUntouched :
      (config : IpAclConfig) (pattern : Bytes) (prefix : Bool) (acl : ConsumerAcl) (o : Override)
      (new : Option (List ConsumerPattern))
      → matches_name consumer pattern prefix ≡ false
      → Keeps new o.temp.patterns
      → IsUntouched config o
      → IsUntouched config (with_pattern pattern prefix acl o new)
  unfolding Keeps
  with_pattern-IsUntouched config pattern prefix acl o none h keeps u = record {
    same_exact = u.same_exact;
    same_patterns = u.same_patterns;
    no_new =
        first_match-append o.new_patterns
          (record { pattern = pattern; prefix = prefix; acl = acl } ∷ [])
        ∙ rw (u.no_new, h) refl;
  }
  with_pattern-IsUntouched config pattern prefix acl o (some new) h keeps u = record {
    same_exact = u.same_exact;
    same_patterns = keeps ∙ u.same_patterns;
    no_new = u.no_new;
  }

  override_consumer-IsUntouched :
      (config : IpAclConfig) (name : Bytes) (acl : ConsumerAcl) (place : Option (Bytes × Bool))
      (o : Override)
      → concerns_of consumer name place ≡ false
      → IsUntouched config o
      → IsUntouched config (override_consumer name acl place o)
  override_consumer-IsUntouched config name acl none o h u = record {
    same_exact = lookup-insert name consumer acl o.temp.exact ∙ rw h u.same_exact;
    same_patterns = u.same_patterns;
    no_new = u.no_new;
  }
  override_consumer-IsUntouched config name acl (some (pattern, prefix)) o h u =
      with_pattern-IsUntouched config pattern prefix acl o
        (replaced pattern prefix acl o.temp.patterns) h
        (replaced-Keeps pattern prefix acl o.temp.patterns h) u

  assemble_override-IsUntouched :
      (config : IpAclConfig) (o : Override)
      → IsUntouched config o
      → lookup_acl (assemble_override o) consumer ≡ lookup_acl config consumer
  unfolding lookup_acl assemble_override
  assemble_override-IsUntouched config o u =
      rw (first_match-append o.new_patterns o.temp.patterns)
        (rw (u.no_new, u.same_exact, u.same_patterns) refl)

  IsClosedOr : IpAclConfig → IpAclConfig → Type 0
  IsClosedOr config result =
      (result ≡ deny_all_config) ⊎ (lookup_acl result consumer ≡ lookup_acl config consumer)

  module _ {J : Type 0} (net : NetText) (G : Gjson J) where
    override_consumers-IsUntouched :
        (config : IpAclConfig) (rules : List (Bytes × J)) (o : Override)
        → All (λ e. concerns consumer e.0 ≡ false) rules
        → IsUntouched config o
        → IsClosedOr config (assembled (override_consumers net G rules o))
    unfolding override_consumers IsClosedOr
    override_consumers-IsUntouched config [] o h u = inr (assemble_override-IsUntouched config o u)
    override_consumers-IsUntouched config ((name, rule) ∷ rest) o h u =
        elim (Result-cases (parse_consumer_acl net G name rule)) [
          | inl (e, bad) ↦ rw bad (inl refl)
          | inr (acl, good) ↦ rw good (
              override_consumers-IsUntouched config rest
                (override_consumer name acl (split_wildcard name) o) h.1
                (override_consumer-IsUntouched config name acl (split_wildcard name) o h.0 u))
        ]

-- A route's configuration is the deny-all one, or a consumer that none of its `consumers` concerns,
-- by name or by pattern, has the rule that it has globally.
pub parse_override_rule_config-inherits :
    {J : Type 0} (net : NetText) (G : Gjson J) (json : J) (global : IpAclConfig) (consumer : Bytes)
    → All (λ e. concerns consumer e.0 ≡ false) (G.entries (G.get json (codes "consumers")))
    → (parse_override_rule_config net G json global ≡ deny_all_config)
      ⊎ (lookup_acl (parse_override_rule_config net G json global) consumer
          ≡ lookup_acl global consumer)
unfolding parse_override_rule_config
parse_override_rule_config-inherits net G json global consumer apart =
    let consumers = G.get json (codes "consumers") in
    let start : IsUntouched consumer global (inherited net G json global) = record {
      same_exact = refl;
      same_patterns = refl;
      no_new = refl;
    } in
    elim (Bool-cases (G.exists json && not (G.is_object json))) [
      | inl bad ↦ rw bad (inl refl)
      | inr good ↦ elim (Bool-cases (not (G.exists consumers))) [
        | inl missing ↦
            rw (good, missing)
              (inr
                (assemble_override-IsUntouched consumer global (inherited net G json global) start))
        | inr present ↦ elim (Bool-cases (not (G.is_object consumers))) [
          | inl bad ↦ rw (good, present, bad) (inl refl)
          | inr object ↦
              rw (good, present, object)
                (unfold IsClosedOr in
                  override_consumers-IsUntouched consumer net G global (G.entries consumers)
                    (inherited net G json global) apart start)
        ]
      ]
    ]
