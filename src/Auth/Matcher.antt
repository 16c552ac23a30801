-- ===== src/Auth/Matcher.antt =====
-- matcher.go: the matchers of header names.
use gpustack_higress_plugin.Common.{
  ◌-◌, Bytes, Bool, true, false, Option, none, some, List, [], ◌∷◌, ◌++◌, codes, eqb, has_prefix,
  has_suffix, take, drop, length, ltb, any, not, ◌&&◌, Result, ok, err, if◌then◌else◌,
}
use gpustack_higress_plugin.Json.{Gjson}

-- strings.EqualFold and ToLower, and regexp.Compile with what the expression matches.
pub record MatchOps : Type 0 where
  pub equal_fold : Bytes → Bytes → Bool
  pub to_lower : Bytes → Bytes
  pub compile : Bytes → Option (Bytes → Bool)

pub data Matcher : Type 0 where
  exact_matcher : Bytes → Bool → Matcher
  prefix_matcher : Bytes → Bool → Matcher
  suffix_matcher : Bytes → Bool → Matcher
  contains_matcher : Bytes → Bool → Matcher
  regex_matcher : (Bytes → Bool) → Matcher

pub data MatcherError : Type 0 where
  bad_regex : Bytes → MatcherError
  unknown_pattern : Bytes → MatcherError
  no_pattern : MatcherError

-- strings.Contains
abbrev contains_text : Bytes → Bytes → Bool
contains_text [] t = has_prefix [] t
contains_text (c ∷ s) t =
    let later = contains_text s t in if has_prefix (c ∷ s) t then true else later

abbrev pub match_pattern_order : List Bytes
match_pattern_order =
    codes "exact" ∷ codes "prefix" ∷ codes "suffix" ∷ codes "contains" ∷ codes "regex" ∷ []

module _ (M : MatchOps) where
  -- The Match methods.
  unfoldable pub matches : Matcher → Bytes → Bool
  matches (exact_matcher target ignore_case) s =
      if ignore_case then M.equal_fold s target else eqb s target
  matches (prefix_matcher target ignore_case) s =
      if not ignore_case
      then has_prefix s target
      else if ltb (length s) (length target)
      then false
      else M.equal_fold (take (length target) s) target
  matches (suffix_matcher target ignore_case) s =
      if not ignore_case
      then has_suffix s target
      else if ltb (length s) (length target)
      then false
      else M.equal_fold (drop (length s - length target) s) target
  matches (contains_matcher target ignore_case) s =
      if ignore_case then contains_text (M.to_lower s) target else contains_text s target
  matches (regex_matcher regex) s = regex s

  -- `none` is the nil matcher, and a repeated matcher is its list.
  unfoldable pub matches_header : Option (List Matcher) → Bytes → Bool
  unfolding matches
  matches_header none name = false
  matches_header (some matchers) name = any (λ m. matches m name) matchers

  abbrev compiled : Bytes → Option (Bytes → Bool) → Result MatcherError Matcher
  compiled target none = err (bad_regex target)
  compiled target (some regex) = ok (regex_matcher regex)

  unfoldable pub new_matcher : Bytes → Bytes → Bool → Result MatcherError Matcher
  new_matcher pattern raw ignore_case =
      let target =
        if ignore_case && not (eqb pattern (codes "regex")) then M.to_lower raw else raw in
      let expression =
        if ignore_case && not (has_prefix target (codes "(?i)"))
        then codes "(?i)" ++ target
        else target in
      if eqb pattern (codes "exact")
      then ok (exact_matcher target ignore_case)
      else if eqb pattern (codes "prefix")
      then ok (prefix_matcher target ignore_case)
      else if eqb pattern (codes "suffix")
      then ok (suffix_matcher target ignore_case)
      else if eqb pattern (codes "contains")
      then ok (contains_matcher target ignore_case)
      else if eqb pattern (codes "regex")
      then compiled expression (M.compile expression)
      else err (unknown_pattern pattern)

  module _ {J : Type 0} (G : Gjson J) (bool_of : J → Bool) where
    -- The loop over the patterns.
    abbrev first_pattern : J → Bool → List Bytes → Result MatcherError Matcher
    first_pattern entry ignore_case [] = err no_pattern
    first_pattern entry ignore_case (pattern ∷ rest) =
        let later = first_pattern entry ignore_case rest in
        let value = G.get entry pattern in
        if G.exists value && not (eqb (G.text value) [])
        then new_matcher pattern (G.text value) ignore_case
        else later

    unfoldable pub build_one_matcher : J → Bool → Result MatcherError Matcher
    unfolding new_matcher
    build_one_matcher entry force_ignore_case =
        let ignore_case =
          if not force_ignore_case
          then bool_of (G.get entry (codes "ignore_case"))
          else force_ignore_case in
        first_pattern entry ignore_case match_pattern_order

    abbrev with_matcher :
        Result MatcherError Matcher
        → Result MatcherError (List Matcher)
        → Result MatcherError (List Matcher)
    with_matcher (err e) rest = err e
    with_matcher (ok m) (err e) = err e
    with_matcher (ok m) (ok built) = ok (m ∷ built)

    abbrev built_matchers : List J → Result MatcherError (List Matcher)
    built_matchers [] = ok []
    built_matchers (entry ∷ rest) =
        with_matcher (build_one_matcher entry true) (built_matchers rest)

    abbrev some_matchers :
        Result MatcherError (List Matcher) → Result MatcherError (Option (List Matcher))
    some_matchers (err e) = err e
    some_matchers (ok built) = ok (some built)

    unfoldable pub build_header_matcher : List J → Result MatcherError (Option (List Matcher))
    unfolding build_one_matcher
    build_header_matcher [] = ok none
    build_header_matcher (entry ∷ rest) = some_matchers (built_matchers (entry ∷ rest))
