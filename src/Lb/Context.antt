-- ===== src/Lb/Context.antt =====
-- extensions/gpustack-lb/context.go: buildCandidateSet, and config.go: the model names.
pub mod Filter
mod Tests
use gpustack_higress_plugin.Common.{
  ℕ, zero, suc, Bytes, Bool, true, false, Option, none, some, List, [], ◌∷◌, ◌++◌, ℤ, pos, lookup,
  codes, eqb, has_prefix, has_suffix, take, length, lt64, ltb, ◌||◌, sub64, keep, map, not, ◌&&◌,
  ◌==◌, ◌-◌, if◌then◌else◌,
}
use gpustack_higress_plugin.Wire.{Candidate, key, kind_provider}
use gpustack_higress_plugin.Lb.State.{HealthState, no_health}
use gpustack_higress_plugin.Lb.Store.{ClusterState, CandidateSpec}

-- The float64 operations that the penalty needs.
pub record FloatOps (Float : Type 0) : Type 0 where
  pub zero_float : Float
  pub one_float : Float
  pub of_int64 : ℤ → Float
  pub add_float : Float → Float → Float
  pub mul_float : Float → Float → Float
  pub div_float : Float → Float → Float
  pub gt_float : Float → Float → Bool

-- config.go, resolveCandidateModel: s < t on Go strings, and sort.Strings
abbrev pub less_bytes : Bytes → Bytes → Bool
less_bytes s [] = false
less_bytes [] (y ∷ t) = true
less_bytes (x ∷ s) (y ∷ t) =
    let rest = less_bytes s t in if ltb x y then true else if x == y then rest else false

unfoldable pub insert_key : Bytes → List Bytes → List Bytes
insert_key k [] = k ∷ []
insert_key k (j ∷ l) = let later = insert_key k l in if less_bytes j k then j ∷ later else k ∷ j ∷ l

unfoldable pub sort_keys : List Bytes → List Bytes
sort_keys [] = []
sort_keys (k ∷ l) = insert_key k (sort_keys l)

abbrev pub any_model : Bytes
any_model = codes "*"

-- The loop over the sorted keys of a group; a key that is a pattern ends in `*`.
unfoldable pub prefix_match : List (Bytes × Bytes) → Bytes → List Bytes → Option Bytes
prefix_match group model [] = none
prefix_match group model (k ∷ rest) =
    let later = prefix_match group model rest in
    if eqb k any_model || not (has_suffix k any_model)
    then later
    else if has_prefix model (take (length k - 1) k)
    then lookup k group
    else later

abbrev pub or_else : Option Bytes → Option Bytes → Option Bytes
or_else none o = o
or_else (some v) o = some v

abbrev pub or_empty : Option Bytes → Bytes
or_empty none = []
or_empty (some v) = v

abbrev pub group_of : Option (List (Bytes × Bytes)) → List (Bytes × Bytes)
group_of none = []
group_of (some group) = group

unfoldable pub resolve_candidate_model : List (Bytes × List (Bytes × Bytes)) → Bytes → Bytes → Bytes
unfolding prefix_match sort_keys insert_key
resolve_candidate_model model_mappers target_id client_model =
    let group = group_of (lookup target_id model_mappers) in
    or_empty (
      or_else (lookup client_model group) (
        or_else (prefix_match group client_model (sort_keys (map (λ e. e.0) group)))
          (lookup any_model group)))

abbrev pub default_fail_open : Bool
default_fail_open = true

abbrev pub should_fail_open : Option Bool → Bool
should_fail_open none = default_fail_open
should_fail_open (some b) = b

-- states[c.Key()]: a missing key reads as the zero state
abbrev pub state_of : Option ClusterState → ClusterState
state_of none = record { inflight = pos 0; health = no_health }
state_of (some st) = st

pub record Scratch (Float : Type 0) : Type 0 where
  pub c : Candidate Float
  pub ejected : Bool

abbrev pub is_ejected : ℤ → HealthState → Bool
is_ejected now_ms h = lt64 now_ms h.ejected_until

abbrev pub is_recovering : ℤ → HealthState → Bool
is_recovering now_ms h = lt64 h.ejected_until h.ramp_until && lt64 now_ms h.ramp_until

module _ {Float : Type 0} (F : FloatOps Float) (model_mappers : List (Bytes × List (Bytes × Bytes)))
    (now_ms : ℤ) (client_model : Bytes) (states : List (Bytes × ClusterState)) where
  open F use {zero_float, one_float, of_int64, add_float, mul_float, div_float, gt_float}

  -- (rampUntil - now) / (rampUntil - ejectedUntil)
  unfoldable pub ramp_penalty : HealthState → Float
  unfolding sub64
  ramp_penalty h =
      div_float (of_int64 (sub64 h.ramp_until now_ms))
        (of_int64 (sub64 h.ramp_until h.ejected_until))

  -- The candidate with the health of its cluster.
  unfoldable pub marked : Candidate Float → HealthState → Scratch Float
  unfolding ramp_penalty
  marked c h =
      if eqb c.kind kind_provider
      then record { c = c; ejected = false }
      else if is_ejected now_ms h
      then record { c = c; ejected = true }
      else if is_recovering now_ms h
      then record { c = record c { penalty = ramp_penalty h; probation = true }; ejected = false }
      else record { c = c; ejected = false }

  -- The candidate with what the round fills in before its health.
  abbrev pub filled : CandidateSpec Float → ClusterState → Candidate Float
  filled spec st = record spec.candidate {
    model_name = resolve_candidate_model model_mappers spec.candidate.target_id client_model;
    max_running_requests = spec.max_running_requests;
    inflight = st.inflight;
  }

  -- One round of the first loop, up to the maximum.
  unfoldable pub scratch_of : CandidateSpec Float → Scratch Float
  unfolding key marked resolve_candidate_model
  scratch_of spec =
      let st = state_of (lookup (key spec.candidate) states) in marked (filled spec st) st.health

  -- The maximum load of the candidates that are not ejected.
  unfoldable pub max_load : Float → List (Scratch Float) → Float
  max_load m [] = m
  max_load m (s ∷ rest) =
      let l = of_int64 s.c.inflight in
      max_load (if s.ejected then m else if gt_float l m then l else m) rest

  abbrev pub scaled : Float → Scratch Float → Scratch Float
  scaled m s =
      if gt_float s.c.penalty zero_float
      then record s { c = record s.c { penalty = mul_float s.c.penalty (add_float m one_float) } }
      else s

  -- The candidates that are not ejected.
  abbrev pub alive : List (Scratch Float) → List (Candidate Float)
  alive items = map (λ s. s.c) (keep (λ s. not s.ejected) items)

  unfoldable pub scratches : List (CandidateSpec Float) → List (Scratch Float)
  unfolding scratch_of max_load
  scratches candidates =
      let items = map scratch_of candidates in map (scaled (max_load zero_float items)) items

  abbrev pub published : Bool → List (Scratch Float) → List (Candidate Float)
  published fail_open items =
      if (length (alive items) == 0) && fail_open then map (λ s. s.c) items else alive items

  unfoldable pub build_candidate_set :
      List (CandidateSpec Float) → Option Bool → List (Candidate Float)
  unfolding scratches
  build_candidate_set candidates fail_open =
      published (should_fail_open fail_open) (scratches candidates)
