-- ===== src/ModelMapper/Fold.antt =====
-- What the loop over the sorted entries makes of a mapping.
use gpustack_higress_plugin.Common.{
  ◌≡◌, refl, sym, ap, ◌∙◌, inl, inr, Bytes, Bool, true, false, Option, none, some, List, [], ◌∷◌,
  ◌++◌, eqb, eqb_iff, has_prefix, has_suffix, lookup, lookup-insert, not, ◌||◌, Bool-cases,
  if◌then◌else◌,
}
use gpustack_higress_plugin.Lb.Context.{or_else}
use gpustack_higress_plugin.ModelMapper.{
  ModelMapping, Mappings, any_name, trim_star, add_entry, add_entries, first_prefix, or_name,
}
use gpustack_higress_plugin.ModelMapper.Sorted.{Entry, or_else-none, or_else_assoc, last_value}

-- The value of the first entry whose key is a prefix of the model with a `*` behind it.
abbrev pub star_match : Bytes → List Entry → Option Bytes
star_match model [] = none
star_match model (e ∷ rest) =
    let later = star_match model rest in
    if eqb e.0 any_name || not (has_suffix e.0 any_name)
    then later
    else if has_prefix model (trim_star e.0)
    then some e.1
    else later

module _ (model : Bytes) where
  first_prefix-append :
      (a b : List ModelMapping)
      → first_prefix model (a ++ b) ≡ or_else (first_prefix model a) (first_prefix model b)
  first_prefix-append [] b = refl
  first_prefix-append (p ∷ a) b = elim (Bool-cases (has_prefix model p.prefix)) [
    | inl h ↦ rw h refl
    | inr h ↦ rw h (first_prefix-append a b)
  ]

  first_prefix-add_entry :
      (e : Entry) (m : Mappings)
      → first_prefix model (add_entry e m).prefixes
        ≡ or_else (first_prefix model m.prefixes) (star_match model (e ∷ []))
  first_prefix-add_entry e m = elim (Bool-cases (eqb e.0 any_name)) [
    | inl all ↦ rw all (sym (or_else-none (first_prefix model m.prefixes)))
    | inr other ↦ elim (Bool-cases (has_suffix e.0 any_name)) [
      | inl star ↦
          rw (other, star)
            (first_prefix-append m.prefixes (record { prefix = trim_star e.0; target = e.1 } ∷ []))
      | inr plain ↦ rw (other, plain) (sym (or_else-none (first_prefix model m.prefixes)))
    ]
  ]

  star_match-cons :
      (e : Entry) (rest : List Entry)
      → star_match model (e ∷ rest) ≡ or_else (star_match model (e ∷ [])) (star_match model rest)
  star_match-cons e rest = elim (Bool-cases (eqb e.0 any_name || not (has_suffix e.0 any_name))) [
    | inl other ↦ rw other refl
    | inr star ↦ elim (Bool-cases (has_prefix model (trim_star e.0))) [
      | inl h ↦ rw (star, h) refl
      | inr h ↦ rw (star, h) refl
    ]
  ]

  pub first_prefix-add_entries :
      (es : List Entry) (m : Mappings)
      → first_prefix model (add_entries es m).prefixes
        ≡ or_else (first_prefix model m.prefixes) (star_match model es)
  first_prefix-add_entries [] m = sym (or_else-none (first_prefix model m.prefixes))
  first_prefix-add_entries (e ∷ es) m =
      first_prefix-add_entries es (add_entry e m)
      ∙ ap (λ o. or_else o (star_match model es)) (first_prefix-add_entry e m)
      ∙ or_else_assoc (first_prefix model m.prefixes) (star_match model (e ∷ []))
          (star_match model es)
      ∙ ap (or_else (first_prefix model m.prefixes)) (sym (star_match-cons e es))

  -- A name that is no pattern.
  name_of_plain :
      (e : Entry)
      → has_suffix model any_name ≡ false
      → has_suffix e.0 any_name ≡ true
      → eqb e.0 model ≡ false
  name_of_plain e plain star = elim (Bool-cases (eqb e.0 model)) [
    | inr h ↦ h
    | inl same ↦
        let e' : true ≡ false =
          sym star ∙ ap (λ k. has_suffix k any_name) ((eqb_iff e.0 model).0 same) ∙ plain in
        absurd (cc)
  ]

  exact-add_entry :
      (e : Entry) (m : Mappings)
      → has_suffix model any_name ≡ false
      → lookup model (add_entry e m).exact
        ≡ or_else (if eqb e.0 model then some e.1 else none) (lookup model m.exact)
  exact-add_entry e m plain = elim (Bool-cases (eqb e.0 any_name)) [
    | inl all ↦
        rw
          (
            all,
            name_of_plain e plain (ap (λ k. has_suffix k any_name) ((eqb_iff e.0 any_name).0 all)),
          )
          refl
    | inr other ↦ elim (Bool-cases (has_suffix e.0 any_name)) [
      | inl star ↦ rw (other, star, name_of_plain e plain star) refl
      | inr exact ↦
          rw (other, exact)
            (lookup-insert e.0 model e.1 m.exact ∙ if_or (eqb e.0 model) e.1 (lookup model m.exact))
    ]
  ]
    where
      if_or :
          (b : Bool) (v : Bytes) (o : Option Bytes)
          → (if b then some v else o) ≡ or_else (if b then some v else none) o
      if_or true v o = refl
      if_or false v o = refl

  pub exact-add_entries :
      (es : List Entry) (m : Mappings)
      → has_suffix model any_name ≡ false
      → lookup model (add_entries es m).exact ≡ or_else (last_value model es) (lookup model m.exact)
  exact-add_entries [] m plain = refl
  exact-add_entries (e ∷ es) m plain =
      exact-add_entries es (add_entry e m) plain
      ∙ ap (or_else (last_value model es)) (exact-add_entry e m plain)
      ∙ sym (
          or_else_assoc (last_value model es) (if eqb e.0 model then some e.1 else none)
            (lookup model m.exact))

default-add_entry :
    (e : Entry) (m : Mappings)
    → (add_entry e m).default_model
      ≡ or_name (if eqb e.0 any_name then some e.1 else none) m.default_model
default-add_entry e m = elim (Bool-cases (eqb e.0 any_name)) [
  | inl all ↦ rw all refl
  | inr other ↦ elim (Bool-cases (has_suffix e.0 any_name)) [
    | inl star ↦ rw (other, star) refl
    | inr exact ↦ rw (other, exact) refl
  ]
]

or_name-or_else :
    (a b : Option Bytes) (s : Bytes) → or_name (or_else a b) s ≡ or_name a (or_name b s)
or_name-or_else none b s = refl
or_name-or_else (some v) b s = refl

pub default-add_entries :
    (es : List Entry) (m : Mappings)
    → (add_entries es m).default_model ≡ or_name (last_value any_name es) m.default_model
default-add_entries [] m = refl
default-add_entries (e ∷ es) m =
    default-add_entries es (add_entry e m)
    ∙ ap (or_name (last_value any_name es)) (default-add_entry e m)
    ∙ sym (
        or_name-or_else (last_value any_name es) (if eqb e.0 any_name then some e.1 else none)
          m.default_model)
