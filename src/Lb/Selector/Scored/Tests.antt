-- ===== src/Lb/Selector/Scored/Tests.antt =====
-- bestTotal at concrete totals.
use gpustack_higress_plugin.Common.{
  ℕ, ◌+◌, ◌*◌, ◌/◌, Bytes, Bool, true, false, none, some, [], ◌∷◌, All, ◌≡◌, refl, pos, pos_part,
  codes, ltb, ◌==◌, arith,
}
use gpustack_higress_plugin.Wire.{Candidate, kind_instance}
use gpustack_higress_plugin.Lb.Context.{FloatOps}
use gpustack_higress_plugin.Lb.Selector.Scored.{best_total}
use gpustack_higress_plugin.Lb.Selector.Scored.Maximum.{FloatOrder, StandsAt, best_total-maximal}

-- Whole numbers in place of floats.
abbrev whole : FloatOps ℕ
whole = record {
  zero_float = 0;
  one_float = 1;
  of_int64 = pos_part;
  add_float = λ a b. a + b;
  mul_float = λ a b. a * b;
  div_float = λ a b. a / b;
  gt_float = λ a b. ltb b a;
}

abbrev same : ℕ → ℕ → Bool
same a b = a == b

abbrev every : ℕ → Bool
every a = true

whole_order : FloatOrder whole same every
whole_order = record {
  asym = λ a b h. ground arith;
  not_above = λ a b c n h k. ground arith;
  equal_above = λ a b h. ground arith;
  not_above_self = λ a. ground arith;
}

abbrev candidate : Bytes → Candidate ℕ
candidate cluster = record {
  cluster = cluster;
  weight = none;
  model_name = [];
  target_id = [];
  kind = kind_instance;
  max_running_requests = pos 0;
  inflight = pos 0;
  penalty = 0;
  probation = false;
}

abbrev second_of_ties : ℕ → ℕ → Bool
second_of_ties i ties = true

best_total-maximal_example :
    (c : Candidate ℕ) × (t : ℕ) × (best_total whole same second_of_ties
        (candidate (codes "a") ∷ candidate (codes "b") ∷ [])
        (3 ∷ 3 ∷ [])
      ≡ some c)
    × StandsAt whole same second_of_ties every whole_order c t
        (candidate (codes "a") ∷ candidate (codes "b") ∷ [])
        (3 ∷ 3 ∷ [])
    × All (λ u. ltb t u ≡ false) (3 ∷ 3 ∷ [])
best_total-maximal_example =
    best_total-maximal whole same second_of_ties every whole_order (candidate (codes "a"))
      (candidate (codes "b") ∷ []) (3 ∷ 3 ∷ []) refl (refl, (refl, tt))
