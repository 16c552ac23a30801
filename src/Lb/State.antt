-- ===== src/Lb/State.antt =====
-- extensions/gpustack-lb/state.go, with the types of store.go and wire.go that it uses: the
-- shared-data backend of the LB state. A function that calls the host is a `Program`; log lines
-- are left out.
pub mod Atomic
pub mod HardCap
pub mod Health
pub mod InitRace
pub mod Removal
pub mod Run
use gpustack_higress_plugin.Common.{
  ℕ, zero, suc, Bytes, Bool, true, false, List, [], ◌∷◌, ◌++◌, ℤ, pos, codes, lt64, le64, eq64,
  add64, sub64, length, keep, format_int, ◌&&◌, ◌||◌, ◌==◌, if◌then◌else◌, not,
}
use gpustack_higress_plugin.Host.{
  Reply, found, missing, broken, Status, ok, cas_mismatch, failed, Program, ret, ask, tell, ◌>>=◌,
}

-- wire.go: the value under a health key, and the value under an in-flight key
pub record HealthState : Type 0 where
  pub fails : ℤ
  pub ejected_until : ℤ
  pub ramp_until : ℤ

pub record InflightState : Type 0 where
  pub starts : List ℤ

abbrev pub no_health : HealthState
no_health = record { fails = pos 0; ejected_until = pos 0; ramp_until = pos 0 }

abbrev pub no_inflight : InflightState
no_inflight = record { starts = [] }

-- A shared-data value, as the document that it holds: no bytes, no JSON document, or the JSON of a
-- state. The decoders are json.Unmarshal into a zero value: an empty value, a value that is no
-- JSON, and the document of the other type, which shares no field, all leave it zero.
pub data Blob : Type 0 where
  blank garbage : Blob
  inflight_doc : InflightState → Blob
  health_doc : HealthState → Blob

abbrev pub decode_inflight : Blob → InflightState
decode_inflight (inflight_doc st) = st
decode_inflight _ = no_inflight

abbrev pub decode_health : Blob → HealthState
decode_health (health_doc st) = st
decode_health _ = no_health

abbrev pub shared_inflight_prefix : Bytes
shared_inflight_prefix = codes "gpustack_lb_inflight_"

abbrev pub shared_health_prefix : Bytes
shared_health_prefix = codes "gpustack_lb_health_"

abbrev pub inflight_key : Bytes → Bytes
inflight_key key = shared_inflight_prefix ++ key

abbrev pub health_key : Bytes → Bytes
health_key cluster = shared_health_prefix ++ cluster

abbrev pub cas_max_retries : ℕ
cas_max_retries = 10

abbrev pub remove_cas_retries : ℕ
remove_cas_retries = 20

-- emptyInflightJSON, the document `{}`
abbrev pub empty_inflight : Blob
empty_inflight = inflight_doc no_inflight

-- nowMs - ts < maxAgeMs
unfoldable pub is_live : ℤ → ℤ → ℤ → Bool
unfolding sub64
is_live now_ms max_age_ms ts = lt64 (sub64 now_ms ts) max_age_ms

unfoldable pub prune_starts : List ℤ → ℤ → ℤ → List ℤ
unfolding is_live
prune_starts starts now_ms max_age_ms = keep (is_live now_ms max_age_ms) starts

-- The counting loop of readInflight.
unfoldable pub count_live : ℤ → ℤ → List ℤ → ℤ → ℤ
count_live now_ms max_age_ms [] n = n
count_live now_ms max_age_ms (ts ∷ rest) n =
    count_live now_ms max_age_ms rest
      (if lt64 (sub64 now_ms ts) max_age_ms then add64 n (pos 1) else n)

unfoldable pub live_in : Reply Blob → ℤ → ℤ → ℤ
live_in (found v cas) now_ms max_age_ms =
    count_live now_ms max_age_ms (decode_inflight v).starts (pos 0)
live_in _ now_ms max_age_ms = pos 0

unfoldable pub read_inflight : Bytes → ℤ → ℤ → Program Blob ℤ
unfolding live_in count_live sub64 add64
read_inflight key now_ms max_age_ms = do
  reply ← ask (inflight_key key)
  ret (live_in reply now_ms max_age_ms)

unfoldable pub health_in : Reply Blob → HealthState
health_in (found v cas) = decode_health v
health_in _ = no_health

unfoldable pub read_health : Bytes → Program Blob HealthState
unfolding health_in
read_health cluster = do reply ← ask (health_key cluster); ret (health_in reply)

-- What loadInflight and loadHealth return: the state, its cas number, and whether the read worked.
pub record Loaded (S : Type 0) : Type 0 where
  pub state : S
  pub cas : ℕ
  pub loaded : Bool

abbrev pub inflight_of : Reply Blob → Loaded InflightState
inflight_of (found v n) = record { state = decode_inflight v; cas = n; loaded = true }
inflight_of missing = record { state = no_inflight; cas = 0; loaded = true }
inflight_of broken = record { state = no_inflight; cas = 0; loaded = false }

abbrev pub health_of : Reply Blob → Loaded HealthState
health_of (found v n) = record { state = decode_health v; cas = n; loaded = true }
health_of missing = record { state = no_health; cas = 0; loaded = true }
health_of broken = record { state = no_health; cas = 0; loaded = false }

abbrev pub load_inflight : Bytes → Program Blob (Loaded InflightState)
load_inflight key = do reply ← ask key; ret (inflight_of reply)

abbrev pub load_health : Bytes → Program Blob (Loaded HealthState)
load_health key = do reply ← ask key; ret (health_of reply)

abbrev pub settled : Status → Bool
settled ok = true
settled cas_mismatch = false
settled failed = true

abbrev pub store_json : Bytes → Blob → ℕ → Program Blob Bool
store_json key v cas = do status ← tell key v cas; ret (settled status)

-- What reserveInflight returns.
pub record Reserved : Type 0 where
  pub reserved : Bool
  pub ok : Bool

abbrev pub granted : Reserved
granted = record { reserved = true; ok = true }

abbrev pub at_cap : Reserved
at_cap = record { reserved = false; ok = true }

abbrev pub degraded : Reserved
degraded = record { reserved = false; ok = false }

abbrev pub is_full : ℤ → List ℤ → Bool
is_full max_run starts = lt64 (pos 0) max_run && le64 max_run (pos (length starts))

-- err != nil of a plain SetSharedData
abbrev pub is_error : Status → Bool
is_error Status.ok = false
is_error _ = true

-- The body of reserveInflight's loop after the load; `again` is the next attempt.
unfoldable pub reserve_loaded :
    Bytes → ℤ → ℤ → ℤ → Program Blob Reserved → Loaded InflightState → Program Blob Reserved
unfolding prune_starts
reserve_loaded k max_run now_ms max_age_ms again l =
    if not l.loaded
    then ret degraded
    else if l.cas == 0
    then (do status ← tell k empty_inflight 0; if is_error status then ret degraded else again)
    else do
      let starts = prune_starts l.state.starts now_ms max_age_ms
      if is_full max_run starts then ret at_cap else do
        done ← store_json k (inflight_doc (record { starts = starts ++ now_ms ∷ [] })) l.cas
        if done then ret granted else again

unfoldable pub reserve_attempts : ℕ → Bytes → ℤ → ℤ → ℤ → Program Blob Reserved
unfolding reserve_loaded
reserve_attempts zero k max_run now_ms max_age_ms = ret degraded
reserve_attempts (suc attempts) k max_run now_ms max_age_ms =
    let again = reserve_attempts attempts k max_run now_ms max_age_ms in
    load_inflight k >>= reserve_loaded k max_run now_ms max_age_ms again

unfoldable pub reserve_inflight : Bytes → ℤ → ℤ → ℤ → Program Blob Reserved
unfolding reserve_attempts
reserve_inflight key max_run now_ms max_age_ms =
    reserve_attempts cas_max_retries (inflight_key key) max_run now_ms max_age_ms

unfoldable pub token_for_start : ℤ → Bytes
unfolding format_int
token_for_start start_ms = format_int start_ms

-- The list without its first entry equal to `start_ms`, and whether there was one.
unfoldable pub remove_first : ℤ → List ℤ → List ℤ × Bool
remove_first start_ms [] = ([], false)
remove_first start_ms (ts ∷ rest) =
    let (kept, removed) = remove_first start_ms rest in
    if eq64 ts start_ms then (rest, true) else (ts ∷ kept, removed)

-- The body of removeInflight's loop after the load.
unfoldable pub remove_loaded :
    Bytes → ℤ → ℤ → ℤ → Program Blob (Unit {0}) → Loaded InflightState → Program Blob (Unit {0})
unfolding prune_starts remove_first
remove_loaded k start_ms now_ms max_age_ms again l = if not l.loaded then ret tt else do
  let (starts, removed) = remove_first start_ms (prune_starts l.state.starts now_ms max_age_ms)
  if not removed && (length starts == length l.state.starts) then ret tt else do
    done ← store_json k (inflight_doc (record { starts = starts })) l.cas
    if done then ret tt else again

unfoldable pub remove_attempts : ℕ → Bytes → ℤ → ℤ → ℤ → Program Blob (Unit {0})
unfolding remove_loaded
remove_attempts zero k start_ms now_ms max_age_ms = ret tt
remove_attempts (suc attempts) k start_ms now_ms max_age_ms =
    let again = remove_attempts attempts k start_ms now_ms max_age_ms in
    load_inflight k >>= remove_loaded k start_ms now_ms max_age_ms again

unfoldable pub remove_inflight : Bytes → ℤ → ℤ → ℤ → Program Blob (Unit {0})
unfolding remove_attempts
remove_inflight key start_ms now_ms max_age_ms =
    if eq64 start_ms (pos 0)
    then ret tt
    else remove_attempts remove_cas_retries (inflight_key key) start_ms now_ms max_age_ms

-- The body of recordSuccess's loop after the load.
unfoldable pub success_loaded :
    Bytes → Program Blob (Unit {0}) → Loaded HealthState → Program Blob (Unit {0})
success_loaded k again l = if not l.loaded || eq64 l.state.fails (pos 0) then ret tt else do
  done ← store_json k (health_doc (record l.state { fails = pos 0 })) l.cas
  if done then ret tt else again

unfoldable pub success_attempts : ℕ → Bytes → Program Blob (Unit {0})
unfolding success_loaded
success_attempts zero k = ret tt
success_attempts (suc attempts) k =
    let again = success_attempts attempts k in load_health k >>= success_loaded k again

unfoldable pub record_success : Bytes → Program Blob (Unit {0})
unfolding success_attempts
record_success cluster = success_attempts cas_max_retries (health_key cluster)

-- One more failure: the count goes up, and at the threshold the cluster is ejected.
unfoldable pub failed_once : HealthState → ℤ → ℤ → ℤ → ℤ → HealthState
unfolding add64
failed_once st threshold cooldown_ms ramp_ms now_ms =
    let fails = add64 st.fails (pos 1) in
    if le64 threshold fails
    then record {
      fails = pos 0;
      ejected_until = add64 now_ms cooldown_ms;
      ramp_until = add64 (add64 now_ms cooldown_ms) ramp_ms;
    }
    else record st { fails = fails }

-- The body of recordFailure's loop after the load.
unfoldable pub failure_loaded :
    Bytes → ℤ → ℤ → ℤ → ℤ → Program Blob (Unit {0}) → Loaded HealthState → Program Blob (Unit {0})
unfolding failed_once
failure_loaded k threshold cooldown_ms ramp_ms now_ms again l = if not l.loaded then ret tt else do
  done ← store_json k (health_doc (failed_once l.state threshold cooldown_ms ramp_ms now_ms)) l.cas
  if done then ret tt else again

unfoldable pub failure_attempts : ℕ → Bytes → ℤ → ℤ → ℤ → ℤ → Program Blob (Unit {0})
unfolding failure_loaded
failure_attempts zero k threshold cooldown_ms ramp_ms now_ms = ret tt
failure_attempts (suc attempts) k threshold cooldown_ms ramp_ms now_ms =
    let again = failure_attempts attempts k threshold cooldown_ms ramp_ms now_ms in
    load_health k >>= failure_loaded k threshold cooldown_ms ramp_ms now_ms again

unfoldable pub record_failure : Bytes → ℤ → ℤ → ℤ → ℤ → Program Blob (Unit {0})
unfolding failure_attempts
record_failure cluster threshold cooldown_ms ramp_ms now_ms =
    failure_attempts cas_max_retries (health_key cluster) threshold cooldown_ms ramp_ms now_ms
