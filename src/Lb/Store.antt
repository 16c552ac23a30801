-- ===== src/Lb/Store.antt =====
-- extensions/gpustack-lb/store.go, and the methods of sharedDataStore in state.go.

pub mod Walk
pub mod Load
pub mod RoundTrip
mod Tests
use gpustack_higress_plugin.Common.{
  ℕ, suc, Bytes, Option, none, some, List, [], ◌∷◌, ℤ, pos, negsuc, any, eqb, insert, parse_int,
  not, if◌then◌else◌,
}
use gpustack_higress_plugin.Host.{Program, ret, ◌>>=◌}
use gpustack_higress_plugin.Wire.{Candidate, key}
use gpustack_higress_plugin.Lb.State.{
  Blob, HealthState, Reserved, read_inflight, read_health, reserve_inflight, remove_inflight,
  record_success, record_failure, token_for_start,
}

pub record ClusterState : Type 0 where
  pub inflight : ℤ
  pub health : HealthState

pub record TargetRef : Type 0 where
  pub key : Bytes
  pub cluster : Bytes

-- reserveTarget embeds its targetRef.
pub record ReserveTarget : Type 0 where
  pub ref : TargetRef
  pub max_run : ℤ

-- The int `pick` of a reserve callback: a 1-based index, or one of the two constants.
abbrev pub reserve_exhausted : ℤ
reserve_exhausted = pos 0

abbrev pub reserve_fail_open : ℤ
reserve_fail_open = negsuc 0

pub data Outcome : Type 0 where
  ignored success failure : Outcome

pub record DoneRecord : Type 0 where
  pub cluster : Bytes
  pub inflight_key : Bytes
  pub token : Bytes
  pub outcome : Outcome
  pub now_ms : ℤ
  pub max_age_ms : ℤ
  pub threshold : ℤ
  pub cooldown_ms : ℤ
  pub ramp_ms : ℤ

-- wire.go: the candidate as the configuration gives it
pub record CandidateSpec (Float : Type 0) : Type 0 where
  pub candidate : Candidate Float
  pub max_running_requests : ℤ

-- The loop of candidateRefs; `seen` is its set of keys.
refs_from : {Float : Type 0} → List Bytes → List (CandidateSpec Float) → List TargetRef
refs_from seen [] = []
refs_from seen (c ∷ rest) =
    let k = key c.candidate in
    let skipped = refs_from seen rest in
    let kept = record { key = k; cluster = c.candidate.cluster } ∷ refs_from (k ∷ seen) rest in
    if any (eqb k) seen then skipped else kept

unfoldable pub candidate_refs : {Float : Type 0} → List (CandidateSpec Float) → List TargetRef
unfolding refs_from key
candidate_refs candidates = refs_from [] candidates

-- The map that LoadStates builds, from the map so far.
unfoldable pub load_states_from :
    List (Bytes × ClusterState)
    → List TargetRef
    → ℤ
    → ℤ
    → Program Blob (List (Bytes × ClusterState))
load_states_from states [] now_ms max_age_ms = ret states
load_states_from states (ref ∷ rest) now_ms max_age_ms = do
  n ← read_inflight ref.key now_ms max_age_ms
  h ← read_health ref.cluster
  load_states_from (insert ref.key (record { inflight = n; health = h }) states) rest now_ms
      max_age_ms

-- sharedDataStore.LoadStates; the result is what `done` is called with
unfoldable pub load_states : List TargetRef → ℤ → ℤ → Program Blob (List (Bytes × ClusterState))
unfolding load_states_from
load_states refs now_ms max_age_ms = load_states_from [] refs now_ms max_age_ms

-- What `done` is called with: pick and token.
pub record Pick : Type 0 where
  pub pick : ℤ
  pub token : Bytes

-- The loop body of sharedDataStore.Reserve at index `i`, after reserveInflight; `others` is the rest
-- of the loop.
unfoldable pub reserve_verdict : ℕ → ℤ → Program Blob Pick → Reserved → Program Blob Pick
reserve_verdict i now_ms others r =
    if not r.ok
    then ret (record { pick = reserve_fail_open; token = [] })
    else if r.reserved
    then ret (record { pick = pos (suc i); token = token_for_start now_ms })
    else others

unfoldable pub reserve_from : ℕ → List ReserveTarget → ℤ → ℤ → Program Blob Pick
unfolding reserve_verdict
reserve_from i [] now_ms max_age_ms = ret (record { pick = reserve_exhausted; token = [] })
reserve_from i (t ∷ rest) now_ms max_age_ms =
    let others = reserve_from (suc i) rest now_ms max_age_ms in
    reserve_inflight t.ref.key t.max_run now_ms max_age_ms >>= reserve_verdict i now_ms others

-- sharedDataStore.Reserve; the result is what `done` is called with
unfoldable pub reserve : List ReserveTarget → ℤ → ℤ → Program Blob Pick
unfolding reserve_from
reserve targets now_ms max_age_ms = reserve_from 0 targets now_ms max_age_ms

-- The two halves of sharedDataStore.Done; the first at what strconv.ParseInt makes of the token.
abbrev pub release_parsed : DoneRecord → Option ℤ → Program Blob (Unit {0})
release_parsed rec none = ret tt
release_parsed rec (some start_ms) =
    remove_inflight rec.inflight_key start_ms rec.now_ms rec.max_age_ms

unfoldable pub release : DoneRecord → Program Blob (Unit {0})
release rec = release_parsed rec (parse_int rec.token)

unfoldable pub settle : Outcome → DoneRecord → Program Blob (Unit {0})
settle ignored rec = ret tt
settle success rec = record_success rec.cluster
settle failure rec = record_failure rec.cluster rec.threshold rec.cooldown_ms rec.ramp_ms rec.now_ms

unfoldable pub done : DoneRecord → Program Blob (Unit {0})
unfolding release settle
done rec = release rec >>= λ _. settle rec.outcome rec
