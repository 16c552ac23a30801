-- ===== src/Lb/Store/Load.antt =====
-- sharedDataStore.LoadStates: what the map holds for a target.
use gpustack_higress_plugin.Common.{
  ℕ, suc, ◌+◌, ◌^◌, ◌<◌, Bytes, true, false, ◌≡◌, refl, ap, ◌∙◌, inl, inr, some, List, [], ◌∷◌,
  ◌++◌, ℤ, pos, lt64, sub64, add64_of_sum, any, eqb, eqb_refl, insert, lookup, lookup-insert,
  length, keep, arith, Bool-cases,
}
use gpustack_higress_plugin.Host.{Reply, found, missing, broken, SharedData, run}
use gpustack_higress_plugin.Lb.State.{
  Blob, inflight_key, health_key, prune_starts, is_live, count_live, live_in, health_in,
  inflight_of, health_of, read_inflight, read_health,
}
use gpustack_higress_plugin.Lb.State.Run.{starts_at}
use gpustack_higress_plugin.Lb.State.Health.{health_at}
use gpustack_higress_plugin.Lb.Store.{ClusterState, TargetRef, load_states_from, load_states}

-- The counting loop counts the entries that pruning keeps.
count_live_lem :
    (now_ms max_age_ms : ℤ) (l : List ℤ) (n : ℕ)
    → n + length (prune_starts l now_ms max_age_ms) < 2 ^ 63
    → count_live now_ms max_age_ms l (pos n) ≡ pos (n + length (prune_starts l now_ms max_age_ms))
unfolding count_live prune_starts is_live
count_live_lem now_ms max_age_ms [] n h = ap pos (omega arith)
count_live_lem now_ms max_age_ms (ts ∷ l) n h =
    elim (Bool-cases (lt64 (sub64 now_ms ts) max_age_ms)) [
      | inl live ↦
          let fits : n + suc (length (keep (is_live now_ms max_age_ms) l)) < 2 ^ 63 =
            rw live at h in
          rw live (
            ap (count_live now_ms max_age_ms l) (add64_of_sum n 1 (omega (arith, fits)))
            ∙ count_live_lem now_ms max_age_ms l (n + 1) (omega (arith, fits))
            ∙ ap pos (omega arith))
      | inr old ↦ rw old (count_live_lem now_ms max_age_ms l n (rw old at h))
    ]

module _ (H : SharedData Blob) (now_ms max_age_ms : ℤ) (s : SharedData.State H) where
  open H use {read}

  state_at : TargetRef → ClusterState
  state_at ref = record {
    inflight = live_in (read s (inflight_key ref.key)) now_ms max_age_ms;
    health = health_in (read s (health_key ref.cluster));
  }

  collect : List (Bytes × ClusterState) → List TargetRef → List (Bytes × ClusterState)
  collect states [] = states
  collect states (ref ∷ rest) = collect (insert ref.key (state_at ref) states) rest

  run-load_states_from :
      (states : List (Bytes × ClusterState)) (refs : List TargetRef)
      → run H (load_states_from states refs now_ms max_age_ms) s ≡ (collect states refs, s)
  unfolding run load_states_from read_inflight read_health collect state_at
  run-load_states_from states [] = refl
  run-load_states_from states (ref ∷ rest) =
      run-load_states_from (insert ref.key (state_at ref) states) rest

  collect-keeps :
      (k : Bytes) (states : List (Bytes × ClusterState)) (refs : List TargetRef)
      → any (λ r. eqb r.key k) refs ≡ false
      → lookup k (collect states refs) ≡ lookup k states
  unfolding collect
  collect-keeps k states [] h = refl
  collect-keeps k states (ref ∷ rest) h = elim (Bool-cases (eqb ref.key k)) [
    | inl same ↦ absurd (clash (rw same at h))
    | inr other ↦
        collect-keeps k (insert ref.key (state_at ref) states) rest (rw other at h)
        ∙ lookup-insert ref.key k (state_at ref) states
        ∙ (rw other refl)
  ]
    where
      clash : true ≡ false → ⊥
      clash e = cc

  collect-last :
      (states : List (Bytes × ClusterState)) (before rest : List TargetRef) (ref : TargetRef)
      → any (λ r. eqb r.key ref.key) rest ≡ false
      → lookup ref.key (collect states (before ++ ref ∷ rest)) ≡ some (state_at ref)
  unfolding collect
  collect-last states [] rest ref h =
      collect-keeps ref.key (insert ref.key (state_at ref) states) rest h
      ∙ lookup-insert ref.key ref.key (state_at ref) states
      ∙ (rw (eqb_refl ref.key) refl)
  collect-last states (r ∷ before) rest ref h =
      collect-last (insert r.key (state_at r) states) before rest ref h

  -- The entries that count at `now_ms`.
  abbrev pub live_starts : Bytes → List ℤ
  live_starts key = prune_starts (starts_at H (inflight_key key) s) now_ms max_age_ms

  live_in-length :
      (r : Reply Blob)
      → length (prune_starts (inflight_of r).state.starts now_ms max_age_ms) < 2 ^ 63
      → live_in r now_ms max_age_ms
        ≡ pos (length (prune_starts (inflight_of r).state.starts now_ms max_age_ms))
  unfolding live_in prune_starts
  live_in-length (found v c) h =
      count_live_lem now_ms max_age_ms _ 0 (omega (arith, h)) ∙ ap pos (omega arith)
  live_in-length missing h = refl
  live_in-length broken h = refl

  health_in-state : (r : Reply Blob) → health_in r ≡ (health_of r).state
  unfolding health_in
  health_in-state (found v c) = refl
  health_in-state missing = refl
  health_in-state broken = refl

  -- LoadStates changes nothing, and the map that it builds holds, for a target that no later target
  -- of the list repeats and that has fewer than 2^63 live entries, the number of its live entries
  -- and the health of its cluster; what is absent or cannot be read counts as empty.
  pub load_states-lookup :
      (before rest : List TargetRef) (ref : TargetRef)
      → any (λ r. eqb r.key ref.key) rest ≡ false
      → length (live_starts ref.key) < 2 ^ 63
      → (lookup ref.key (run H (load_states (before ++ ref ∷ rest) now_ms max_age_ms) s).0
          ≡ some (record {
            inflight = pos (length (live_starts ref.key));
            health = health_at H (health_key ref.cluster) s;
          }))
        × ((run H (load_states (before ++ ref ∷ rest) now_ms max_age_ms) s).1 ≡ s)
  unfolding load_states state_at
  load_states-lookup before rest ref last small =
      let loaded = run-load_states_from [] (before ++ ref ∷ rest) in
      (
        ap (λ r. lookup ref.key r.0) loaded
            ∙ collect-last [] before rest ref last
            ∙ ap
                (λ (n : ℤ).
                  some
                    (record { inflight = n; health = health_in (read s (health_key ref.cluster)) }))
                (live_in-length (read s (inflight_key ref.key)) small)
            ∙ ap (λ h. some (record { inflight = pos (length (live_starts ref.key)); health = h }))
                (health_in-state (read s (health_key ref.cluster))),
        ap (λ r. r.1) loaded,
      )
