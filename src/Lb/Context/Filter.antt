-- ===== src/Lb/Context/Filter.antt =====
-- Which candidates buildCandidateSet publishes.
use gpustack_higress_plugin.Common.{
  suc, Bytes, Bool, ◌≡◌, refl, sym, ap, ◌∙◌, inl, inr, Option, List, [], ◌∷◌, ℤ, lookup, eqb, lt64,
  keep, map, length, not, ◌&&◌, ◌||◌, ◌==◌, Bool-cases, if◌then◌else◌,
}
use gpustack_higress_plugin.Wire.{Candidate, key, kind_provider}
use gpustack_higress_plugin.Lb.State.{HealthState}
use gpustack_higress_plugin.Lb.Store.{ClusterState, CandidateSpec}
use gpustack_higress_plugin.Lb.Context.{
  FloatOps, Scratch, state_of, should_fail_open, is_ejected, is_recovering, filled, marked,
  scratch_of, scaled, max_load, alive, build_candidate_set,
}

module _ {Float : Type 0} (F : FloatOps Float) (model_mappers : List (Bytes × List (Bytes × Bytes)))
    (now_ms : ℤ) (client_model : Bytes) (states : List (Bytes × ClusterState)) where
  open F use {zero_float, gt_float}

  abbrev health_of_spec : CandidateSpec Float → HealthState
  health_of_spec spec = (state_of (lookup (key spec.candidate) states)).health

  -- A provider, or a candidate whose target's cluster is not ejected at `now_ms`.
  abbrev pub is_healthy : CandidateSpec Float → Bool
  is_healthy spec =
      eqb spec.candidate.kind kind_provider || not (lt64 now_ms (health_of_spec spec).ejected_until)

  abbrev pub spec_key : CandidateSpec Float → Bytes
  spec_key spec = key spec.candidate

  abbrev filled_spec : CandidateSpec Float → Candidate Float
  filled_spec spec =
      filled F model_mappers now_ms client_model states spec
        (state_of (lookup (key spec.candidate) states))

  abbrev item_of : CandidateSpec Float → Scratch Float
  item_of spec = scratch_of F model_mappers now_ms client_model states spec

  marked-fields :
      (c : Candidate Float) (h : HealthState)
      → ((marked F model_mappers now_ms client_model states c h).ejected
          ≡ not (eqb c.kind kind_provider || not (lt64 now_ms h.ejected_until)))
        × (key (marked F model_mappers now_ms client_model states c h).c ≡ key c)
  unfolding marked key
  marked-fields c h = elim (Bool-cases (eqb c.kind kind_provider)) [
    | inl provider ↦ rw provider (refl, refl)
    | inr other ↦ elim (Bool-cases (is_ejected now_ms h)) [
      | inl out ↦ rw (other, out) (refl, refl)
      | inr stays ↦ elim (Bool-cases (is_recovering now_ms h)) [
        | inl ramp ↦ rw (other, stays, ramp) (refl, refl)
        | inr full ↦ rw (other, stays, full) (refl, refl)
      ]
    ]
  ]

  -- What the filter reads of a candidate's item, the penalty's scaling included.
  item-fields :
      (m : Float) (spec : CandidateSpec Float)
      → ((scaled F model_mappers now_ms client_model states m (item_of spec)).ejected
          ≡ not (is_healthy spec))
        × (key (scaled F model_mappers now_ms client_model states m (item_of spec)).c
            ≡ spec_key spec)
  unfolding scratch_of key
  item-fields m spec = elim (Bool-cases (gt_float (item_of spec).c.penalty zero_float)) [
    | inl h ↦ rw h (marked-fields (filled_spec spec) (health_of_spec spec))
    | inr h ↦ rw h (marked-fields (filled_spec spec) (health_of_spec spec))
  ]

  abbrev items_at : Float → List (CandidateSpec Float) → List (Scratch Float)
  items_at m specs = map (scaled F model_mappers now_ms client_model states m) (map item_of specs)

  abbrev keys_of : List (Candidate Float) → List Bytes
  keys_of l = map key l

  alive-keys :
      (m : Float) (specs : List (CandidateSpec Float))
      → keys_of (alive F model_mappers now_ms client_model states (items_at m specs))
        ≡ map spec_key (keep is_healthy specs)
  alive-keys m [] = refl
  alive-keys m (spec ∷ specs) =
      let (ejected, same) = item-fields m spec in
      elim (Bool-cases (is_healthy spec)) [
        | inl healthy ↦
            let stays = ejected ∙ ap not healthy in
            rw (healthy, stays)
              (ap
                  (λ k.
                    k
                    ∷ keys_of (alive F model_mappers now_ms client_model states (items_at m specs)))
                  same
                ∙ ap (λ l. spec_key spec ∷ l) (alive-keys m specs))
        | inr sick ↦ let leaves = ejected ∙ ap not sick in rw (sick, leaves) (alive-keys m specs)
      ]

  all-keys :
      (m : Float) (specs : List (CandidateSpec Float))
      → keys_of (map (λ s. s.c) (items_at m specs)) ≡ map spec_key specs
  all-keys m [] = refl
  all-keys m (spec ∷ specs) =
      ap (λ k. k ∷ keys_of (map (λ s. s.c) (items_at m specs))) (item-fields m spec).1
      ∙ ap (λ l. spec_key spec ∷ l) (all-keys m specs)

  length-map_keys : {A : Type 0} (f : A → Bytes) (l : List A) → length (map f l) ≡ length l
  length-map_keys f [] = refl
  length-map_keys f (x ∷ l) = ap suc (length-map_keys f l)

  -- The published candidates are, in the order of the configuration, those that are providers or
  -- whose target's cluster is not ejected; where there is none and failOpen is true or left out, they
  -- are all configured candidates. The keys say which candidates they are.
  pub build_candidate_set-keys :
      (specs : List (CandidateSpec Float)) (fail_open : Option Bool)
      → keys_of (build_candidate_set F model_mappers now_ms client_model states specs fail_open) ≡ (
          if (length (keep is_healthy specs) == 0) && should_fail_open fail_open
          then map spec_key specs
          else map spec_key (keep is_healthy specs))
  unfolding build_candidate_set
  build_candidate_set-keys specs fail_open =
      let m = max_load F model_mappers now_ms client_model states zero_float (map item_of specs) in
      let items = items_at m specs in
      let live = alive F model_mappers now_ms client_model states items in
      let count : length live ≡ length (keep is_healthy specs) =
        sym (length-map_keys key live)
        ∙ ap length (alive-keys m specs)
        ∙ length-map_keys spec_key (keep is_healthy specs) in
      elim (Bool-cases ((length (keep is_healthy specs) == 0) && should_fail_open fail_open)) [
        | inl every ↦ rw (count, every) (all-keys m specs)
        | inr only_live ↦ rw (count, only_live) (alive-keys m specs)
      ]
