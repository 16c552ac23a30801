-- ===== src/Lb/Tests.antt =====
-- The LB plugin's theorems at concrete inputs, and runs of its routines.
use gpustack_higress_plugin.Common.{
  ◌≤◌, Bytes, Bool, ◌≡◌, refl, true, List, [], ◌∷◌, pos, codes, arith, map,
}
use gpustack_higress_plugin.Host.{Program, SharedData, ret, run}
use gpustack_higress_plugin.Host.Table.{table, Log}
use gpustack_higress_plugin.Host.Interleave.{Reach, Step, start, next, here, reads, writes}
use gpustack_higress_plugin.Host.Interleave.Atomic.{Changes}
use gpustack_higress_plugin.Host.Interleave.Alone.{Runs, run-Runs}
use gpustack_higress_plugin.Lb.State.{
  Blob, inflight_doc, inflight_key, prune_starts, reserve_inflight, remove_inflight,
}
use gpustack_higress_plugin.Lb.State.Run.{starts_at, Leaves, run-reserve_inflight}
use gpustack_higress_plugin.Lb.State.Atomic.{Job, reserve, release, Updates}
use gpustack_higress_plugin.Lb.State.InitRace.{init_race_admits_both}
use gpustack_higress_plugin.Lb.State.HardCap.{
  routine, entries, concurrent_writes_atomic, concurrent_entries-le-limit, granted_unrecorded,
}

abbrev gpu : Bytes
gpu = codes "gpu-1"

abbrev slot : Bytes
slot = inflight_key gpu

abbrev H : SharedData Blob
H = table Blob

-- Two requests in flight, started at 100 and 900.
abbrev busy : Blob
busy = inflight_doc (record { starts = pos 100 ∷ pos 900 ∷ [] })

abbrev busy_log : Log Blob
busy_log = (slot, busy) ∷ []

run-reserve_inflight_example :
    Leaves H slot
      (pos 2)
      (pos 1000)
      (pos 500)
      (starts_at H slot busy_log)
      busy_log
      (run H (reserve_inflight gpu (pos 2) (pos 1000) (pos 500)) busy_log)
run-reserve_inflight_example =
    run-reserve_inflight H gpu (pos 2) (pos 1000) (pos 500) busy_log (λ e. cc (e))

-- Two workers on the same target: one reserves, the other ends the request of 900.
abbrev jobs : List Job
jobs = reserve (pos 1000) (pos 500) ∷ release (pos 900) (pos 1001) (pos 500) ∷ []

abbrev workers : List (Program Blob Bool)
workers = map (routine gpu (pos 2)) jobs

-- The first worker has made all its calls.
abbrev after_first : Bool × Log Blob
after_first = run H (routine gpu (pos 2) (reserve (pos 1000) (pos 500))) busy_log

abbrev others : List (Program Blob Bool)
others = routine gpu (pos 2) (release (pos 900) (pos 1001) (pos 500)) ∷ []

routines : Unit {0}
unfolding run reserve_inflight remove_inflight
routines = tt

first_done : Reach H busy_log workers after_first.1 (ret after_first.0 ∷ others)
unfolding routines
first_done =
    (run-Runs H (routine gpu (pos 2) (reserve (pos 1000) (pos 500))) others busy_log
      (λ e. cc (e), (refl, tt))).0

-- The entry of 100 has aged out, so there is room: the log has one more write.
first_granted :
    after_first
    ≡ (true, (slot, inflight_doc (record { starts = pos 900 ∷ pos 1000 ∷ [] })) ∷ busy_log)
unfolding routines
first_granted = refl

concurrent_entries-le-limit_example :
    entries (inflight_doc (record { starts = pos 900 ∷ pos 1000 ∷ [] })) ≤ 2
concurrent_entries-le-limit_example =
    concurrent_entries-le-limit H gpu 2 jobs busy
      (inflight_doc (record { starts = pos 900 ∷ pos 1000 ∷ [] })) 1 2 (omega arith) refl
      (omega arith) first_done (rw first_granted refl)

-- The first worker has read the list, and writes next.
first_writes :
    (q : Program Blob Bool) × (r : Program Blob Bool) × Reach H busy_log workers busy_log
      (q ∷ others)
    × Step H busy_log after_first.1 (q ∷ others) (r ∷ others)
unfolding routines
first_writes =
    (_, _, next start (here (reads slot _ refl refl refl)), here (writes slot _ 1 _ refl refl refl))

concurrent_writes_atomic_example : Changes H slot (Updates (pos 2) jobs) busy_log after_first.1
concurrent_writes_atomic_example =
    concurrent_writes_atomic H gpu (pos 2) jobs (busy, 1, refl) first_writes.2 first_writes.3

granted_unrecorded_example :
    Reach H busy_log
      (routine gpu (pos 2) (reserve (pos 1000) (pos 500)) ∷ [])
      busy_log
      (ret true ∷ [])
unfolding prune_starts
granted_unrecorded_example =
    granted_unrecorded H gpu (pos 2) (pos 1000) (pos 500) busy_log busy 1 refl refl

-- A gateway that has just started.
init_race_admits_both_example :
    (t : Log Blob) × Runs H []
      (map (routine gpu (pos 1)) (reserve (pos 1000) (pos 500) ∷ reserve (pos 1000) (pos 500) ∷ []))
      t
      (ret true ∷ ret true ∷ [])
    × (starts_at H slot t ≡ pos 1000 ∷ [])
init_race_admits_both_example = init_race_admits_both H gpu (pos 1000) (pos 500) [] refl
