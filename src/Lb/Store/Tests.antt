-- ===== src/Lb/Store/Tests.antt =====
-- The store's walk, its round trip and the health of a cluster at concrete states.
use gpustack_higress_plugin.Common.{
  lookup, length, some, ℕ, Bytes, ◌≡◌, ◌≢◌, ◌↔◌, refl, ap, sym, false, ◌<◌, [], ◌∷◌, ◌++◌, ℤ, pos,
  codes, arith, none,
}
use gpustack_higress_plugin.Host.{broken, SharedData, run}
use gpustack_higress_plugin.Host.Table.{table, Log}
use gpustack_higress_plugin.Wire.{Candidate, key, kind_instance}
use gpustack_higress_plugin.Wire.Key.{key-eq_iff}
use gpustack_higress_plugin.Lb.State.{
  Blob, inflight_doc, inflight_key, health_key, prune_starts, token_for_start, remove_inflight,
}
use gpustack_higress_plugin.Lb.State.Run.{starts_at}
use gpustack_higress_plugin.Lb.State.Removal.{Removed, run-remove_inflight}
use gpustack_higress_plugin.Lb.State.Health.{health_at}
use gpustack_higress_plugin.Lb.State.Health.Ejection.{
  after, ejected_at, failures-eject_at_threshold,
}
use gpustack_higress_plugin.Lb.Store.{
  load_states, ReserveTarget, DoneRecord, success, Pick, reserve, done, reserve_exhausted,
}
use gpustack_higress_plugin.Lb.Store.Walk.{live_of, reserve_no_room, reserve_first_room}
use gpustack_higress_plugin.Lb.Store.Load.{live_starts, load_states-lookup}
use gpustack_higress_plugin.Lb.Store.RoundTrip.{occurrences, done_undoes_reserve}

abbrev H : SharedData Blob
H = table Blob

abbrev small : ReserveTarget
small = record { ref = record { key = codes "a"; cluster = codes "x" }; max_run = pos 1 }

abbrev large : ReserveTarget
large = record { ref = record { key = codes "b"; cluster = codes "x" }; max_run = pos 3 }

-- The small target is at its cap; the large one has never been used.
abbrev s : Log Blob
s = (inflight_key (codes "a"), inflight_doc (record { starts = pos 900 ∷ [] })) ∷ []

readable_small : SharedData.read H s (inflight_key (codes "a")) ≢ broken
readable_small e = cc (e)

readable_large : SharedData.read H s (inflight_key (codes "b")) ≢ broken
readable_large e = cc (e)

run-remove_inflight_example :
    Removed H
      (inflight_key (codes "a"))
      (pos 900)
      (pos 1000)
      (pos 500)
      s
      (run H (remove_inflight (codes "a") (pos 900) (pos 1000) (pos 500)) s).1
run-remove_inflight_example =
    run-remove_inflight H (codes "a") (pos 900) (pos 1000) (pos 500) s readable_small refl

reserve_no_room_example :
    run H (reserve (small ∷ small ∷ []) (pos 1000) (pos 500)) s
    ≡ (record { pick = reserve_exhausted; token = [] }, s)
unfolding prune_starts
reserve_no_room_example =
    reserve_no_room H (pos 1000) (pos 500) s (small ∷ small ∷ [])
      ((readable_small, refl), ((readable_small, refl), tt))

reserve_first_room_example :
    ((run H (reserve (small ∷ large ∷ []) (pos 1000) (pos 500)) s).0
      ≡ record { pick = pos 2; token = token_for_start (pos 1000) })
    × (starts_at H
          (inflight_key (codes "b"))
          (run H (reserve (small ∷ large ∷ []) (pos 1000) (pos 500)) s).1
        ≡ live_of H (pos 1000) (pos 500) s large ++ pos 1000 ∷ [])
    × ((j : Bytes)
        → j ≢ inflight_key (codes "b")
        → SharedData.read H (run H (reserve (small ∷ large ∷ []) (pos 1000) (pos 500)) s).1 j
          ≡ SharedData.read H s j)
unfolding prune_starts
reserve_first_room_example =
    reserve_first_room H (pos 1000) (pos 500) s (small ∷ []) [] large ((readable_small, refl), tt)
      readable_large refl

-- The end of the request on the large target, 100 ms later.
abbrev rec : DoneRecord
rec = record {
  cluster = codes "x";
  inflight_key = codes "b";
  token = token_for_start (pos 1000);
  outcome = success;
  now_ms = pos 1100;
  max_age_ms = pos 500;
  threshold = pos 3;
  cooldown_ms = pos 10000;
  ramp_ms = pos 5000;
}

done_undoes_reserve_example :
    occurrences (pos 1000) (
      starts_at H
        (inflight_key (codes "b"))
        (run H (done rec) (run H (reserve (small ∷ large ∷ []) (pos 1000) (pos 500)) s).1).1)
    ≡ occurrences (pos 1000) (live_of H (pos 1000) (pos 500) s large)
unfolding prune_starts
done_undoes_reserve_example =
    done_undoes_reserve H (pos 1000) (pos 500) s (small ∷ []) [] large rec
      ((readable_small, refl), tt) readable_large refl (omega arith, omega arith) refl refl
      (ap (λ (p : Pick). p.token) (sym reserve_first_room_example.0)) (refl, tt) (pos 1000)

failures-eject_at_threshold_example :
    (2 < 3
      → health_at H
          (health_key (codes "x"))
          (after H (codes "x") 3 (pos 10000) (pos 5000) (pos 100 ∷ pos 200 ∷ []) s)
        ≡ record (health_at H (health_key (codes "x")) s) { fails = pos 2 })
    × (◌≡◌ {A = ℕ} 3 3
        → health_at H
            (health_key (codes "x"))
            (after H (codes "x") 3 (pos 10000) (pos 5000) (pos 100 ∷ pos 200 ∷ pos 300 ∷ []) s)
          ≡ ejected_at H (codes "x") 3 (pos 10000) (pos 5000) (pos 300))
failures-eject_at_threshold_example =
    failures-eject_at_threshold H (codes "x") 3 (pos 10000) (pos 5000) (pos 100 ∷ pos 200 ∷ [])
      (pos 300) s (omega arith) (λ e. cc (e)) refl

-- Two backends of one cluster.
abbrev backend : Bytes → Candidate ℤ
backend target_id = record {
  cluster = codes "x";
  weight = none;
  model_name = [];
  target_id = target_id;
  kind = kind_instance;
  max_running_requests = pos 0;
  inflight = pos 0;
  penalty = pos 1;
  probation = false;
}

key-eq_iff_example :
    (key (backend (codes "1")) ≡ key (backend (codes "2")))
    ↔ ((codes "x" ≡ codes "x") × (codes "1" ≡ codes "2"))
key-eq_iff_example =
    key-eq_iff (backend (codes "1")) (backend (codes "2")) ((λ e. cc (e)), tt) ((λ e. cc (e)), tt)

load_states-lookup_example :
    (lookup (codes "a") (run H (load_states (large.ref ∷ small.ref ∷ []) (pos 1000) (pos 500)) s).0
      ≡ some (record {
        inflight = pos (length (live_starts H (pos 1000) (pos 500) s (codes "a")));
        health = health_at H (health_key (codes "x")) s;
      }))
    × ((run H (load_states (large.ref ∷ small.ref ∷ []) (pos 1000) (pos 500)) s).1 ≡ s)
unfolding prune_starts
load_states-lookup_example =
    load_states-lookup H (pos 1000) (pos 500) s (large.ref ∷ []) [] small.ref refl (omega arith)
