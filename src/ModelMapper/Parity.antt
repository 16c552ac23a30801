-- ===== src/ModelMapper/Parity.antt =====
-- The model mapper and the load balancer resolve a model name alike from one mapping.
use gpustack_higress_plugin.Common.{
  ◌≡◌, refl, sym, ap, ◌∙◌, inl, inr, Bytes, Bool, true, false, Option, none, some, List, [], ◌∷◌,
  All, eqb, eqb_refl, has_prefix, has_suffix, lookup, map, not, ◌||◌, Bool-cases, if◌then◌else◌,
}
use gpustack_higress_plugin.Lb.Context.{
  sort_keys, prefix_match, or_else, or_empty, resolve_candidate_model,
}
use gpustack_higress_plugin.ModelMapper.{
  no_mappings, any_name, sort_entries, trim_star, parse_mappings, or_default, first_prefix, or_name,
  resolve_model,
}
use gpustack_higress_plugin.ModelMapper.Sorted.{
  Entry, IsDistinct, All-sort_entries, sort_keys-map, or_else-none, last_value,
  last_value-sort_entries,
}
use gpustack_higress_plugin.ModelMapper.Fold.{
  star_match, first_prefix-add_entries, exact-add_entries, default-add_entries,
}

abbrev Finds : List Entry → Entry → Type 0
Finds group f = lookup f.0 group ≡ some f.1

lookup-behind :
    (e : Entry) (rest l : List Entry)
    → All (λ f. eqb e.0 f.0 ≡ false) l
    → All (Finds rest) l
    → All (Finds (e ∷ rest)) l
lookup-behind e rest [] other found = tt
lookup-behind e rest (f ∷ l) other found =
    (rw (other.0) (found.0), lookup-behind e rest l other.1 found.1)

All-found : (group : List Entry) → IsDistinct group → All (Finds group) group
All-found [] h = tt
All-found (e ∷ rest) h =
    (rw (eqb_refl e.0) refl, lookup-behind e rest rest h.0 (All-found rest h.1))

prefix_match-star_match :
    (group : List Entry) (model : Bytes) (es : List Entry)
    → All (Finds group) es
    → prefix_match group model (map (λ e. e.0) es) ≡ star_match model es
unfolding prefix_match
prefix_match-star_match group model [] found = refl
prefix_match-star_match group model (e ∷ es) found =
    let ih = prefix_match-star_match group model es found.1 in
    elim (Bool-cases (eqb e.0 any_name || not (has_suffix e.0 any_name))) [
      | inl other ↦ rw other ih
      | inr star ↦ elim (Bool-cases (has_prefix model (trim_star e.0))) [
        | inl h ↦ rw (star, h) (found.0)
        | inr h ↦ rw (star, h) ih
      ]
    ]

module _ (group : List Entry) (model : Bytes) (distinct : IsDistinct group) where
  sorted_prefix :
      first_prefix model (parse_mappings group).prefixes
      ≡ prefix_match group model (sort_keys (map (λ e. e.0) group))
  unfolding parse_mappings
  sorted_prefix =
      first_prefix-add_entries model (sort_entries group) no_mappings
      ∙ sym (
          prefix_match-star_match group model (sort_entries group)
            (All-sort_entries (Finds group) group (All-found group distinct)))
      ∙ ap (prefix_match group model) (sym (sort_keys-map group))

  exact_entry :
      has_suffix model any_name ≡ false
      → lookup model (parse_mappings group).exact ≡ lookup model group
  unfolding parse_mappings
  exact_entry plain =
      exact-add_entries model (sort_entries group) no_mappings plain
      ∙ or_else-none (last_value model (sort_entries group))
      ∙ last_value-sort_entries model group distinct

  default_entry : (parse_mappings group).default_model ≡ or_empty (lookup any_name group)
  unfolding parse_mappings
  default_entry =
      default-add_entries (sort_entries group) no_mappings
      ∙ ap (λ o. or_name o []) (last_value-sort_entries any_name group distinct)
      ∙ or_name-empty (lookup any_name group)
    where
      or_name-empty : (o : Option Bytes) → or_name o [] ≡ or_empty o
      or_name-empty none = refl
      or_name-empty (some v) = refl

same_name :
    (exact prefix star : Option Bytes) (model : Bytes)
    → or_default (or_name exact (or_name prefix (or_default (or_empty star) model))) model
      ≡ or_default (or_empty (or_else exact (or_else prefix star))) model
same_name (some v) prefix star model = refl
same_name none (some v) star model = refl
same_name none none star model = elim (Bool-cases (eqb (or_empty star) [])) [
  | inl h ↦ rw h (rw_same (eqb model []))
  | inr h ↦ rw h (rw h refl)
]
  where
    rw_same : (b : Bool) → (if b then model else model) ≡ model
    rw_same true = refl
    rw_same false = refl

-- From a mapping with distinct keys, the model mapper and the load balancer give a model name that
-- does not end in `*` the same name, where an empty result stands for the name itself.
pub resolve_model-resolve_candidate_model :
    (group : List (Bytes × Bytes)) (target_id model : Bytes)
    → IsDistinct group
    → has_suffix model any_name ≡ false
    → or_default (resolve_model (parse_mappings group) model) model
      ≡ or_default (resolve_candidate_model ((target_id, group) ∷ []) target_id model) model
unfolding resolve_model resolve_candidate_model
resolve_model-resolve_candidate_model group target_id model distinct plain =
    rw
      (
        exact_entry group model distinct plain,
        sorted_prefix group model distinct,
        default_entry group model distinct,
        eqb_refl target_id,
      )
      (same_name (lookup model group) (prefix_match group model (sort_keys (map (λ e. e.0) group)))
        (lookup any_name group) model)
