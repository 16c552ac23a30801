-- ===== src/Lb/Selector/Tests.antt =====
-- selector.go at concrete candidates.
use gpustack_higress_plugin.Common.{
  ◌≡◌, refl, false, inl, Option, none, some, List, [], ◌∷◌, ◌++◌, ℤ, pos, arith, codes, ◌<◌, Bytes,
  get_elem?,
}
use gpustack_higress_plugin.Wire.{Candidate, kind_instance}
use gpustack_higress_plugin.Lb.Selector.{select_weighted, hash64}
use gpustack_higress_plugin.Lb.Selector.Weighted.{
  share, select_weighted-interval, select_weighted-positive, select_weighted-uniform, point_of,
}
use gpustack_higress_plugin.Lb.Selector.Rotation.{turns, round_robin_even}

abbrev candidate : Bytes → Option ℤ → Candidate ℤ
candidate cluster weight = record {
  cluster = cluster;
  weight = weight;
  model_name = [];
  target_id = [];
  kind = kind_instance;
  max_running_requests = pos 0;
  inflight = pos 0;
  penalty = pos 1;
  probation = false;
}

abbrev stable : Candidate ℤ
stable = candidate (codes "stable") (some (pos 90))

abbrev canary : Candidate ℤ
canary = candidate (codes "canary") (some (pos 10))

abbrev idle : Candidate ℤ
idle = candidate (codes "idle") none

abbrev request : Bytes
request = codes "req-2"

-- FNV-1a of the empty string and of "a", as its specification gives them.
hash_empty : hash64 [] ≡ 14695981039346656037
unfolding hash64
hash_empty = refl

hash_a : hash64 (codes "a") ≡ 12638187200555641996
unfolding hash64
hash_a = refl

select_weighted-interval_example :
    select_weighted (idle ∷ stable ∷ canary ∷ []) request ≡ some stable
unfolding hash64
select_weighted-interval_example =
    select_weighted-interval (idle ∷ []) (canary ∷ []) stable request
      ((omega arith, omega arith), ((omega arith, omega arith), ((omega arith, omega arith), tt)))
      (omega arith) (omega arith) (omega arith)

select_weighted-positive_example :
    (before : List (Candidate ℤ)) × (c : Candidate ℤ) × (rest : List (Candidate ℤ)) × (idle ∷ stable
        ∷ []
      ≡ before ++ c ∷ rest)
    × (select_weighted (idle ∷ stable ∷ []) request ≡ some c)
    × (0 < share c)
select_weighted-positive_example =
    select_weighted-positive (idle ∷ stable ∷ []) request
      ((omega arith, omega arith), ((omega arith, omega arith), tt)) (omega arith) (omega arith)

select_weighted-uniform_example :
    select_weighted (idle ∷ idle ∷ []) request ≡ get_elem? (idle ∷ idle ∷ []) (point_of request 2)
select_weighted-uniform_example =
    select_weighted-uniform idle (idle ∷ []) request
      ((omega arith, omega arith), ((omega arith, omega arith), tt)) (inl refl)

round_robin_even_example :
    turns 3 7 (idle ∷ stable ∷ canary ∷ []) ≡ some stable ∷ some canary ∷ some idle ∷ []
round_robin_even_example =
    round_robin_even 7 (idle ∷ stable ∷ canary ∷ []) (omega arith) (omega arith)
