-- ===== src/Lb/Finisher/Tests.antt =====
-- finisher.go at concrete candidates, and health.go at concrete flags.
use gpustack_higress_plugin.Common.{
  bit_and, not, ◌==◌, arith, false, ℕ, Bytes, true, false, ◌≡◌, ◌≢◌, refl, none, some, List, [],
  ◌∷◌, ◌++◌, pos, codes, ltb, map, get_elem?,
}
use gpustack_higress_plugin.Host.{SharedData, run}
use gpustack_higress_plugin.Host.Table.{table, Log}
use gpustack_higress_plugin.Wire.{Candidate, key, kind_instance}
use gpustack_higress_plugin.Lb.State.{
  Blob, inflight_doc, inflight_key, prune_starts, token_for_start,
}
use gpustack_higress_plugin.Lb.State.Run.{starts_at}
use gpustack_higress_plugin.Lb.Store.{reserve}
use gpustack_higress_plugin.Lb.Store.Walk.{live_of}
use gpustack_higress_plugin.Lb.Selector.{is_weighted}
use gpustack_higress_plugin.Lb.Finisher.{
  panics, routed_to, target_of, targets_of, finalize_selection, reserve_order,
}
use gpustack_higress_plugin.Lb.Finisher.Order.{IsDistinct, occurs, reserve_order_complete}
use gpustack_higress_plugin.Lb.Flags.{connectivity_failure_mask, is_connectivity_failure}
use gpustack_higress_plugin.Lb.Flags.Decode.{little_endian, is_connectivity_failure-flags}
use gpustack_higress_plugin.Lb.Finisher.Choice.{
  Returns, finalize_selection-in_range, routed_where_reserved,
}

-- Scores are natural numbers here.
abbrev slot_of : Bytes → Candidate ℕ
slot_of cluster = record {
  cluster = cluster;
  weight = none;
  model_name = [];
  target_id = [];
  kind = kind_instance;
  max_running_requests = pos 1;
  inflight = pos 0;
  penalty = 0;
  probation = false;
}

abbrev x : Candidate ℕ
x = slot_of (codes "x")

abbrev y : Candidate ℕ
y = slot_of (codes "y")

abbrev z : Candidate ℕ
z = slot_of (codes "z")

abbrev same_order : List ℕ → List ℕ
same_order is = is

-- The winner first, then the others by their totals, each key once.
order_of_four :
    reserve_order ltb same_order (x ∷ y ∷ z ∷ x ∷ []) (some y) (1 ∷ 9 ∷ 5 ∷ 2 ∷ []) ≡ y ∷ z ∷ x ∷ []
unfolding reserve_order
order_of_four = refl

reserve_order_complete_example :
    (get_elem? (reserve_order ltb same_order (x ∷ y ∷ x ∷ []) (some y) (1 ∷ 9 ∷ 2 ∷ [])) 0 ≡ some y)
    × IsDistinct (map key (reserve_order ltb same_order (x ∷ y ∷ x ∷ []) (some y) (1 ∷ 9 ∷ 2 ∷ [])))
    × ((k : Bytes)
        → occurs k (map key (x ∷ y ∷ x ∷ [])) ≡ true
        → occurs k
            (map key (reserve_order ltb same_order (x ∷ y ∷ x ∷ []) (some y) (1 ∷ 9 ∷ 2 ∷ [])))
          ≡ true)
unfolding is_weighted
reserve_order_complete_example =
    reserve_order_complete ltb same_order (x ∷ y ∷ x ∷ []) y (1 ∷ 9 ∷ 2 ∷ []) (λ p l. refl) refl

finalize_selection-in_range_example :
    Returns
      (λ p. finalize_selection (x ∷ y ∷ []) p ≢ panics)
      (reserve (targets_of (x ∷ y ∷ [])) (pos 1000) (pos 500))
finalize_selection-in_range_example = finalize_selection-in_range x (y ∷ []) (pos 1000) (pos 500)

abbrev H : SharedData Blob
H = table Blob

-- x is at its cap.
abbrev s : Log Blob
s = (inflight_key (codes "x"), inflight_doc (record { starts = pos 900 ∷ [] })) ∷ []

routed_where_reserved_example :
    (finalize_selection
        (x ∷ y ∷ [])
        (run H (reserve (targets_of (x ∷ y ∷ [])) (pos 1000) (pos 500)) s).0
      ≡ routed_to (some y) (token_for_start (pos 1000)))
    × (starts_at H
          (inflight_key (key y))
          (run H (reserve (targets_of (x ∷ y ∷ [])) (pos 1000) (pos 500)) s).1
        ≡ live_of H (pos 1000) (pos 500) s (target_of y) ++ pos 1000 ∷ [])
unfolding prune_starts target_of
routed_where_reserved_example =
    routed_where_reserved H (pos 1000) (pos 500) s (x ∷ []) [] y (((λ e. cc (e)), refl), tt)
      (λ e. cc (e)) refl

-- A failed connection (UF) counts, an upstream timeout (UT, bit 2) does not.
timeout_ignored : is_connectivity_failure (some (4 ∷ 0 ∷ [])) ≡ false
unfolding is_connectivity_failure
timeout_ignored = refl

is_connectivity_failure-flags_example :
    is_connectivity_failure (some (little_endian 4 32))
    ≡ not (bit_and 32 connectivity_failure_mask == 0)
is_connectivity_failure-flags_example =
    is_connectivity_failure-flags 3 32 (omega arith) (omega arith)
