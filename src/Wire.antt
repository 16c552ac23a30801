-- ===== src/Wire.antt =====
-- extensions/gpustack-lb/wire/wire.go: what crosses the boundary between the LB plugins.
pub mod Key
use gpustack_higress_plugin.Common.{
  ℕ, Bytes, Bool, Option, List, [], ◌∷◌, ◌++◌, ℤ, codes, eqb, if◌then◌else◌,
}

abbrev pub kind_instance : Bytes
kind_instance = codes "instance"

abbrev pub kind_provider : Bytes
kind_provider = codes "provider"

-- `Float` is Go's float64. `weight` is nil where it is `none`.
pub record Candidate (Float : Type 0) : Type 0 where
  pub cluster : Bytes
  pub weight : Option ℤ
  pub model_name : Bytes
  pub target_id : Bytes
  pub kind : Bytes
  pub max_running_requests : ℤ
  pub inflight : ℤ
  pub penalty : Float
  pub probation : Bool

abbrev pub candidate_key_sep : Bytes
candidate_key_sep = 0 ∷ []

-- Candidate.Key, over the two fields that it reads
abbrev pub join_key : Bytes → Bytes → Bytes
join_key cluster target_id =
    if eqb target_id [] then cluster else cluster ++ (candidate_key_sep ++ target_id)

unfoldable pub key : {Float : Type 0} → Candidate Float → Bytes
key c = join_key c.cluster c.target_id

-- `scores` is a map: an association list with the entry of a key at its first place.
pub record RankEntry (Float : Type 0) : Type 0 where
  pub name : Bytes
  pub weight : Float
  pub scores : List (Bytes × Float)
