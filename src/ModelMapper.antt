-- ===== src/ModelMapper.antt =====
-- extensions/gpustack-model-mapper/main.go: the mapping of model names in request bodies.
pub mod Multipart
pub mod Sorted
pub mod Fold
pub mod Parity
mod Tests
use gpustack_higress_plugin.Common.{
  ℕ, ◌-◌, ◌^◌, Bytes, Bool, true, false, Option, none, some, List, [], ◌∷◌, ◌++◌, ℤ, pos, codes,
  eqb, has_prefix, has_suffix, take, drop, length, cut_before, any, lookup, insert, lt64, le64, map,
  keep, not, ◌&&◌, ◌||◌, Result, ok, err, if◌then◌else◌,
}
use gpustack_higress_plugin.Json.{Gjson}
use gpustack_higress_plugin.Lb.Context.{less_bytes}

pub record ModelMapping : Type 0 where
  pub prefix : Bytes
  pub target : Bytes

-- The names that the configuration maps: exactModelMapping, prefixModelMapping and defaultModel.
pub record Mappings : Type 0 where
  pub exact : List (Bytes × Bytes)
  pub prefixes : List ModelMapping
  pub default_model : Bytes

pub record MapperConfig : Type 0 where
  pub model_key : Bytes
  pub mappings : Mappings
  pub enable_on_path_suffix : List Bytes
  pub model_to_header : Bytes
  pub max_body_bytes : ℤ

pub data MapperError : Type 0 where
  bad_max_body_bytes : MapperError
  mapping_not_object : MapperError
  suffixes_not_array : MapperError

abbrev pub no_mappings : Mappings
no_mappings = record { exact = []; prefixes = []; default_model = [] }

abbrev pub any_name : Bytes
any_name = codes "*"

-- sort.Slice by the key; an object of distinct keys has one such order.
abbrev pub insert_entry : Bytes × Bytes → List (Bytes × Bytes) → List (Bytes × Bytes)
insert_entry e [] = e ∷ []
insert_entry e (f ∷ rest) =
    let later = insert_entry e rest in if less_bytes f.0 e.0 then f ∷ later else e ∷ f ∷ rest

abbrev pub sort_entries : List (Bytes × Bytes) → List (Bytes × Bytes)
sort_entries [] = []
sort_entries (e ∷ rest) = insert_entry e (sort_entries rest)

-- strings.TrimSuffix(key, "*"), of a key that has it
abbrev pub trim_star : Bytes → Bytes
trim_star key = take (length key - 1) key

-- The switch in the loop over the sorted entries.
abbrev pub add_entry : Bytes × Bytes → Mappings → Mappings
add_entry e m =
    if eqb e.0 any_name
    then record m { default_model = e.1 }
    else if has_suffix e.0 any_name
    then record m {
      prefixes = m.prefixes ++ (record { prefix = trim_star e.0; target = e.1 } ∷ []);
    }
    else record m { exact = insert e.0 e.1 m.exact }

abbrev pub add_entries : List (Bytes × Bytes) → Mappings → Mappings
add_entries [] m = m
add_entries (e ∷ rest) m = add_entries rest (add_entry e m)

unfoldable pub parse_mappings : List (Bytes × Bytes) → Mappings
parse_mappings entries = add_entries (sort_entries entries) no_mappings

abbrev pub default_suffixes : List Bytes
default_suffixes =
    codes "/completions"
    ∷ codes "/embeddings"
    ∷ codes "/images/generations"
    ∷ codes "/images/edits"
    ∷ codes "/audio/speech"
    ∷ codes "/audio/transcriptions"
    ∷ codes "/audio/translations"
    ∷ codes "/fine_tuning/jobs"
    ∷ codes "/moderations"
    ∷ codes "/image-synthesis"
    ∷ codes "/video-synthesis"
    ∷ codes "/rerank"
    ∷ codes "/messages"
    ∷ codes "/responses"
    ∷ []

abbrev pub or_default : Bytes → Bytes → Bytes
or_default s fallback = if eqb s [] then fallback else s

-- The prefix loop of resolveModel.
abbrev pub first_prefix : Bytes → List ModelMapping → Option Bytes
first_prefix model [] = none
first_prefix model (p ∷ rest) =
    let later = first_prefix model rest in
    if has_prefix model p.prefix then some p.target else later

abbrev pub or_name : Option Bytes → Bytes → Bytes
or_name none name = name
or_name (some target) name = target

unfoldable pub resolve_model : Mappings → Bytes → Bytes
resolve_model m old_model =
    or_name (lookup old_model m.exact)
      (or_name (first_prefix old_model m.prefixes) (or_default m.default_model old_model))

module _ {J : Type 0} (G : Gjson J) (int : J → ℤ) where
  open G use {exists, is_object, is_array, get, text, entries, items}

  abbrev suffixes_of : J → Result MapperError (List Bytes)
  suffixes_of v =
      if not (exists v)
      then ok default_suffixes
      else if not (is_array v)
      then err suffixes_not_array
      else ok (keep (λ s. not (eqb s [])) (map text (items v)))

  -- The largest uint32 where the number is larger.
  abbrev body_limit : J → Result MapperError ℤ
  body_limit v =
      if not (exists v)
      then ok (pos 104857600)
      else if le64 (int v) (pos 0)
      then err bad_max_body_bytes
      else if lt64 (pos (2 ^ 32 - 1)) (int v)
      then ok (pos (2 ^ 32 - 1))
      else ok (int v)

  abbrev with_suffixes : J → ℤ → Result MapperError (List Bytes) → Result MapperError MapperConfig
  with_suffixes j limit (err e) = err e
  with_suffixes j limit (ok suffixes) = ok (record {
    model_key = or_default (text (get j (codes "modelKey"))) (codes "model");
    mappings = parse_mappings (map (λ e. (e.0, text e.1)) (entries (get j (codes "modelMapping"))));
    enable_on_path_suffix = suffixes;
    model_to_header =
        or_default (text (get j (codes "modelToHeader"))) (codes "x-higress-llm-model-final");
    max_body_bytes = limit;
  })

  abbrev with_limit : J → Result MapperError ℤ → Result MapperError MapperConfig
  with_limit j (err e) = err e
  with_limit j (ok limit) =
      let mapping = get j (codes "modelMapping") in
      if exists mapping && not (is_object mapping)
      then err mapping_not_object
      else with_suffixes j limit (suffixes_of (get j (codes "enableOnPathSuffix")))

  unfoldable pub parse_config : J → Result MapperError MapperConfig
  unfolding parse_mappings
  parse_config j = with_limit j (body_limit (get j (codes "maxBodyBytes")))

-- What a body handler does: the header is set to the model, and the body replaced where it is some.
pub record Rewrite : Type 0 where
  pub header : Bytes
  pub body : Option Bytes

-- encoding/json's Valid, gjson's string at a key, and sjson's SetBytes (`none` for an error).
pub record BodyOps : Type 0 where
  pub is_valid : Bytes → Bool
  pub get_string : Bytes → Bytes → Bytes
  pub set_string : Bytes → Bytes → Bytes → Option Bytes

-- `none` leaves the request as it is.
unfoldable pub handle_json_body : BodyOps → MapperConfig → Bytes → Option Rewrite
unfolding resolve_model
handle_json_body O config body =
    let old_model = O.get_string body config.model_key in
    let new_model = resolve_model config.mappings old_model in
    if not (O.is_valid body)
    then none
    else if not (eqb new_model []) && not (eqb new_model old_model)
    then some (record { header = new_model; body = O.set_string body config.model_key new_model })
    else some (record { header = new_model; body = none })

-- The path without its query, and whether a suffix of the configuration ends it.
unfoldable pub is_enabled_path : List Bytes → Bytes → Bool
is_enabled_path suffixes path =
    any (λ s. eqb s any_name || has_suffix (cut_before b'?' path) s) suffixes
