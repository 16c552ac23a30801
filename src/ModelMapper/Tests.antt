-- ===== src/ModelMapper/Tests.antt =====
-- The mapping of model names at a concrete configuration.
use gpustack_higress_plugin.ModelMapper.Multipart.{Part, Scan, scan_part, then_scan}
use gpustack_higress_plugin.Common.{true, false, some, pos, ◌≡◌, refl, Bytes, List, [], ◌∷◌, codes}
use gpustack_higress_plugin.Lb.Context.{resolve_candidate_model}
use gpustack_higress_plugin.ModelMapper.{MapperConfig, parse_mappings, or_default, resolve_model}
use gpustack_higress_plugin.ModelMapper.Parity.{resolve_model-resolve_candidate_model}

abbrev group : List (Bytes × Bytes)
group =
    (codes "legacy-coder-*", codes "x")
    ∷ (codes "legacy-*", codes "y")
    ∷ (codes "m", codes "z")
    ∷ (codes "*", codes "d")
    ∷ []

first_prefix_first : resolve_model (parse_mappings group) (codes "legacy-coder-7b") ≡ codes "y"
unfolding resolve_model parse_mappings
first_prefix_first = refl

resolve_model-resolve_candidate_model_example :
    or_default
      (resolve_model (parse_mappings group) (codes "legacy-coder-7b"))
      (codes "legacy-coder-7b")
    ≡ or_default
        (resolve_candidate_model ((codes "t", group) ∷ []) (codes "t") (codes "legacy-coder-7b"))
        (codes "legacy-coder-7b")
resolve_model-resolve_candidate_model_example =
    resolve_model-resolve_candidate_model group (codes "t") (codes "legacy-coder-7b")
      ((refl, (refl, (refl, tt))), ((refl, (refl, tt)), ((refl, tt), (tt, tt)))) refl

abbrev config : MapperConfig
config = record {
  model_key = codes "model";
  mappings = record { exact = (codes "m", codes "z") ∷ []; prefixes = []; default_model = [] };
  enable_on_path_suffix = codes "/edits" ∷ [];
  model_to_header = codes "x-model";
  max_body_bytes = pos 1000;
}

abbrev part : Bytes → Bytes → Bytes → Part
part form_name file_name content = record {
  header = form_name;
  form_name = form_name;
  file_name = file_name;
  content = some content;
}

abbrev start : Scan
start = record { old_model = []; new_model = []; found_model = false; out = [] }

-- A file that is named like the model's field goes through, and so does a second field of that name.
only_first_field :
    then_scan config
      (part (codes "model") (codes "f.bin") (codes "m")
        ∷ part (codes "model") [] (codes "m")
        ∷ part (codes "model") [] (codes "m")
        ∷ [])
      (some start)
    ≡ some (record {
      old_model = codes "m";
      new_model = codes "z";
      found_model = true;
      out =
          (codes "model", codes "m") ∷ (codes "model", codes "z") ∷ (codes "model", codes "m") ∷ [];
    })
unfolding scan_part resolve_model
only_first_field = refl
