-- ===== src/Lb/Context/Tests.antt =====
-- buildCandidateSet and resolveCandidateModel at concrete configurations.
use gpustack_higress_plugin.Common.{
  ℕ, ◌+◌, ◌*◌, ◌/◌, Bytes, false, ◌≡◌, refl, none, List, [], ◌∷◌, pos, codes, pos_part, ltb, map,
  keep, length, ◌==◌, ◌&&◌, if◌then◌else◌,
}
use gpustack_higress_plugin.Wire.{key, kind_instance}
use gpustack_higress_plugin.Lb.Store.{ClusterState, CandidateSpec}
use gpustack_higress_plugin.Lb.Context.{
  FloatOps, build_candidate_set, resolve_candidate_model, should_fail_open,
}
use gpustack_higress_plugin.Lb.Context.Filter.{is_healthy, spec_key, build_candidate_set-keys}

-- Whole numbers in place of floats.
abbrev whole : FloatOps ℕ
whole = record {
  zero_float = 0;
  one_float = 1;
  of_int64 = pos_part;
  add_float = λ a b. a + b;
  mul_float = λ a b. a * b;
  div_float = λ a b. a / b;
  gt_float = λ a b. ltb b a;
}

abbrev instance_of : Bytes → CandidateSpec ℕ
instance_of cluster = record {
  candidate = record {
    cluster = cluster;
    weight = none;
    model_name = [];
    target_id = [];
    kind = kind_instance;
    max_running_requests = pos 0;
    inflight = pos 0;
    penalty = 0;
    probation = false;
  };
  max_running_requests = pos 4;
}

abbrev specs : List (CandidateSpec ℕ)
specs = instance_of (codes "a") ∷ instance_of (codes "b") ∷ []

-- a is ejected until 500.
abbrev states : List (Bytes × ClusterState)
states =
    (
      codes "a",
      record {
        inflight = pos 2;
        health = record { fails = pos 0; ejected_until = pos 500; ramp_until = pos 900 };
      },
    )
    ∷ []

-- "First matching prefix" in the order of the keys, which is not the longest one.
shorter_prefix :
    resolve_candidate_model
      ((codes "t", (codes "legacy-coder-*", codes "x") ∷ (codes "legacy-*", codes "y") ∷ []) ∷ [])
      (codes "t")
      (codes "legacy-coder-7b")
    ≡ codes "y"
unfolding resolve_candidate_model
shorter_prefix = refl

build_candidate_set-keys_example :
    map key (build_candidate_set whole [] (pos 100) [] states specs none) ≡ (
      if (length (keep (is_healthy whole [] (pos 100) [] states) specs) == 0)
        && should_fail_open none
      then map (spec_key whole [] (pos 100) [] states) specs
      else map
          (spec_key whole [] (pos 100) [] states)
          (keep (is_healthy whole [] (pos 100) [] states) specs))
build_candidate_set-keys_example = build_candidate_set-keys whole [] (pos 100) [] states specs none
