-- ===== src/Lb/Finisher.antt =====
-- extensions/gpustack-lb/finisher.go: the order in which the targets are tried, and what becomes of
-- the store's answer.
pub mod Order
pub mod Choice
mod Tests
use gpustack_higress_plugin.Common.{
  ℕ, zero, suc, ◌+◌, ◌-◌, Bytes, Bool, true, false, Option, none, some, List, [], ◌∷◌, ℤ, pos,
  negsuc, any, map, eqb, eq64, length, get_elem?, ◌==◌, if◌then◌else◌,
}
use gpustack_higress_plugin.Wire.{Candidate, key, kind_provider}
use gpustack_higress_plugin.Lb.Store.{
  TargetRef, ReserveTarget, Pick, Outcome, ignored, success, failure, DoneRecord, reserve_exhausted,
  reserve_fail_open,
}
use gpustack_higress_plugin.Lb.Selector.{is_weighted}

pub record Chosen : Type 0 where
  pub cluster : Bytes
  pub key : Bytes
  pub model_name : Bytes
  pub kind : Bytes
  pub probation : Bool

-- slices.SortStableFunc by a strict order.
unfoldable pub insert_stable : {A : Type 0} → (A → A → Bool) → A → List A → List A
insert_stable less x [] = x ∷ []
insert_stable less x (y ∷ l) =
    let later = insert_stable less x l in if less y x then y ∷ later else x ∷ y ∷ l

unfoldable pub sort_stable : {A : Type 0} → (A → A → Bool) → List A → List A
unfolding insert_stable
sort_stable less [] = []
sort_stable less (x ∷ l) = insert_stable less x (sort_stable less l)

-- The indices from `i` on of a list.
abbrev pub indices_from : {A : Type 0} → ℕ → List A → List ℕ
indices_from i [] = []
indices_from i (x ∷ l) = i ∷ indices_from (suc i) l

module _ {Float : Type 0} where
  abbrev pub with_some : Option (Candidate Float) → List (Candidate Float) → List (Candidate Float)
  with_some none l = l
  with_some (some c) l = c ∷ l

  -- set.Candidates[i] for each index; reserveOrder's are those of the candidates
  abbrev pub candidates_at : List (Candidate Float) → List ℕ → List (Candidate Float)
  candidates_at candidates [] = []
  candidates_at candidates (i ∷ rest) =
      with_some (get_elem? candidates i) (candidates_at candidates rest)

  -- The loop of reserveOrder; `seen` is its set of keys.
  unfoldable pub order_from : List Bytes → List (Candidate Float) → List (Candidate Float)
  unfolding key
  order_from seen [] = []
  order_from seen (c ∷ rest) =
      let skipped = order_from seen rest in
      let kept = c ∷ order_from (key c ∷ seen) rest in
      if any (eqb (key c)) seen then skipped else kept

-- `less` is cmp.Compare(x, y) < 0, and `shuffle` what rand.Shuffle does to the indices.
module _ {Float : Type 0} (less : Float → Float → Bool) (shuffle : List ℕ → List ℕ) where
  -- cmp.Compare(totals[b], totals[a]) < 0; the indices are those of `totals`
  abbrev pub higher_total : List Float → ℕ → ℕ → Bool
  higher_total totals a b = elim (get_elem? totals a) [
    | none ↦ false
    | some total_a ↦ elim (get_elem? totals b) [
      | none ↦ false
      | some total_b ↦ less total_b total_a
    ]
  ]

  unfoldable pub walk_indices : List (Candidate Float) → List Float → List ℕ
  unfolding sort_stable
  walk_indices candidates totals =
      let indices = indices_from 0 candidates in
      if length totals == 0 then indices else sort_stable (higher_total totals) (shuffle indices)

  unfoldable pub reserve_order :
      List (Candidate Float) → Option (Candidate Float) → List Float → List (Candidate Float)
  unfolding is_weighted key order_from walk_indices
  reserve_order candidates none totals = []
  reserve_order candidates (some pick) totals =
      if is_weighted candidates
      then pick ∷ []
      else pick
        ∷ order_from (key pick ∷ []) (candidates_at candidates (walk_indices candidates totals))

-- What finalizeSelection decides: the cap response, or a target cluster header with the context
-- values of the request; `panics` is an index out of range.
pub data Decision : Type 0 where
  cap_rejected panics : Decision
  routed : (target_cluster : Bytes) → Chosen → (token : Bytes) → Decision

module _ {Float : Type 0} where
  -- The targets that finisherOnHeaders hands to the store.
  unfoldable pub target_of : Candidate Float → ReserveTarget
  unfolding key
  target_of c = record {
    ref = record { key = key c; cluster = c.cluster };
    max_run = c.max_running_requests;
  }

  abbrev pub targets_of : List (Candidate Float) → List ReserveTarget
  targets_of ordered = map target_of ordered

  abbrev pub routed_to : Option (Candidate Float) → Bytes → Decision
  routed_to none token = panics
  routed_to (some c) token =
      routed c.cluster
        (record {
          cluster = c.cluster;
          key = key c;
          model_name = c.model_name;
          kind = c.kind;
          probation = c.probation;
        })
        token

  -- ordered[pick-1]
  abbrev pub ordered_at : List (Candidate Float) → ℤ → Option (Candidate Float)
  ordered_at ordered (pos zero) = none
  ordered_at ordered (pos (suc i)) = get_elem? ordered i
  ordered_at ordered (negsuc n) = none

  unfoldable pub finalize_selection : List (Candidate Float) → Pick → Decision
  finalize_selection ordered p =
      if eq64 p.pick reserve_exhausted
      then cap_rejected
      else if eq64 p.pick reserve_fail_open
      then routed_to (get_elem? ordered 0) []
      else routed_to (ordered_at ordered p.pick) p.token

-- The settings that the end of a stream reads.
pub record StreamConfig : Type 0 where
  pub max_inflight_age_ms : ℤ
  pub unhealthy_threshold : ℤ
  pub cooldown_ms : ℤ
  pub ramp_ms : ℤ

-- The outcome and the threshold of a stream.
abbrev pub outcome_of : Chosen → Bool → Outcome
outcome_of pick connectivity_failure =
    if eqb pick.kind kind_provider
    then ignored
    else if connectivity_failure
    then failure
    else success

-- finisherOnStreamDone at what the request's context holds: the choice and the token, if any.
unfoldable pub done_record : StreamConfig → Option Chosen → Bytes → Bool → ℤ → Option DoneRecord
done_record config none token connectivity_failure now_ms = none
done_record config (some pick) token connectivity_failure now_ms = some (record {
  cluster = pick.cluster;
  inflight_key = pick.key;
  token = token;
  outcome = outcome_of pick connectivity_failure;
  now_ms = now_ms;
  max_age_ms = config.max_inflight_age_ms;
  threshold = if pick.probation then pos 1 else config.unhealthy_threshold;
  cooldown_ms = config.cooldown_ms;
  ramp_ms = config.ramp_ms;
})
