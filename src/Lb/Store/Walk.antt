-- ===== src/Lb/Store/Walk.antt =====
-- sharedDataStore.Reserve: the ordered walk over the targets.
use gpustack_higress_plugin.Common.{
  ℕ, suc, ◌+◌, Bytes, true, false, ◌≡◌, ◌≢◌, refl, ap, subst, ◌∙◌, List, [], ◌∷◌, ◌++◌, ℤ, pos,
  arith, All, length,
}
use mathlib.Core.List.{append-nil}
use gpustack_higress_plugin.Host.{broken, SharedData, Program, run}
use gpustack_higress_plugin.Host.Run.{run-bind}
use gpustack_higress_plugin.Lb.State.{
  Blob, inflight_key, prune_starts, is_full, reserve_inflight, Reserved, at_cap, granted, degraded,
  token_for_start,
}
use gpustack_higress_plugin.Lb.State.Run.{
  starts_at, Leaves, run-reserve_inflight, run-reserve_inflight_full, run-reserve_inflight_broken,
}
use gpustack_higress_plugin.Lb.Store.{
  ReserveTarget, Pick, reserve_exhausted, reserve_fail_open, reserve_verdict, reserve_from, reserve,
}

module _ (H : SharedData Blob) (now_ms max_age_ms : ℤ) (s : SharedData.State H) where
  open H use {read}

  abbrev slot : ReserveTarget → Bytes
  slot t = inflight_key t.ref.key

  abbrev pub IsReadable : ReserveTarget → Type 0
  IsReadable t = read s (slot t) ≢ broken

  -- The live entries of a target, and whether they use up its cap.
  abbrev pub live_of : ReserveTarget → List ℤ
  live_of t = prune_starts (starts_at H (slot t) s) now_ms max_age_ms

  abbrev pub IsFull : ReserveTarget → Type 0
  IsFull t = IsReadable t × (is_full t.max_run (live_of t) ≡ true)

  -- The walk at its first target.
  walk_head :
      (i : ℕ) (t : ReserveTarget) (rest : List ReserveTarget) {r : Reserved}
      {u : SharedData.State H}
      → run H (reserve_inflight t.ref.key t.max_run now_ms max_age_ms) s ≡ (r, u)
      → run H (reserve_from i (t ∷ rest) now_ms max_age_ms) s
        ≡ run H (reserve_verdict i now_ms (reserve_from (suc i) rest now_ms max_age_ms) r) u
  unfolding reserve_from
  walk_head i t rest {r} {u} e =
      let p = reserve_inflight t.ref.key t.max_run now_ms max_age_ms in
      let verdict = reserve_verdict i now_ms (reserve_from (suc i) rest now_ms max_age_ms) in
      run-bind H p verdict s ∙ ap (λ (x : Reserved × SharedData.State H). run H (verdict x.0) x.1) e

  verdict-at_cap :
      (i : ℕ) (others : Program Blob Pick) (u : SharedData.State H)
      → run H (reserve_verdict i now_ms others at_cap) u ≡ run H others u
  unfolding reserve_verdict
  verdict-at_cap i others u = refl

  verdict-degraded :
      (i : ℕ) (others : Program Blob Pick) (u : SharedData.State H)
      → run H (reserve_verdict i now_ms others degraded) u
        ≡ (record { pick = reserve_fail_open; token = [] }, u)
  unfolding reserve_verdict run
  verdict-degraded i others u = refl

  verdict-granted :
      (i : ℕ) (others : Program Blob Pick) (u : SharedData.State H)
      → run H (reserve_verdict i now_ms others granted) u
        ≡ (record { pick = pos (suc i); token = token_for_start now_ms }, u)
  unfolding reserve_verdict run
  verdict-granted i others u = refl

  skip_full :
      (i : ℕ) (before rest : List ReserveTarget)
      → All IsFull before
      → run H (reserve_from i (before ++ rest) now_ms max_age_ms) s
        ≡ run H (reserve_from (i + length before) rest now_ms max_age_ms) s
  skip_full i [] rest h = ap (λ n. run H (reserve_from n rest now_ms max_age_ms) s) (omega arith)
  skip_full i (t ∷ before) rest ((readable, full), h) =
      walk_head i t (before ++ rest)
        (run-reserve_inflight_full H t.ref.key t.max_run now_ms max_age_ms s readable full)
      ∙ verdict-at_cap i (reserve_from (suc i) (before ++ rest) now_ms max_age_ms) s
      ∙ skip_full (suc i) before rest h
      ∙ ap (λ n. run H (reserve_from n rest now_ms max_age_ms) s) (omega arith)

  reserve-reserve_from :
      (targets : List ReserveTarget)
      → run H (reserve targets now_ms max_age_ms) s
        ≡ run H (reserve_from 0 targets now_ms max_age_ms) s
  unfolding reserve
  reserve-reserve_from targets = refl

  run-reserve_from_nil :
      (i : ℕ)
      → run H (reserve_from i [] now_ms max_age_ms) s
        ≡ (record { pick = reserve_exhausted; token = [] }, s)
  unfolding reserve_from run
  run-reserve_from_nil i = refl

  -- The walk past full targets, to the first other one.
  reserve-skip :
      (before rest : List ReserveTarget)
      → All IsFull before
      → run H (reserve (before ++ rest) now_ms max_age_ms) s
        ≡ run H (reserve_from (length before) rest now_ms max_age_ms) s
  reserve-skip before rest h =
      reserve-reserve_from (before ++ rest)
      ∙ skip_full 0 before rest h
      ∙ ap (λ n. run H (reserve_from n rest now_ms max_age_ms) s) (omega arith)

  -- Where every target is full, the walk answers reserveExhausted and changes nothing.
  pub reserve_no_room :
      (targets : List ReserveTarget)
      → All IsFull targets
      → run H (reserve targets now_ms max_age_ms) s
        ≡ (record { pick = reserve_exhausted; token = [] }, s)
  reserve_no_room targets h =
      subst
        (λ l.
          run H (reserve l now_ms max_age_ms) s
          ≡ (record { pick = reserve_exhausted; token = [] }, s))
        (append-nil targets) (reserve-skip targets [] h ∙ run-reserve_from_nil (length targets))

  -- Where the first target that is not full cannot be read, the walk answers reserveFailOpen and
  -- changes nothing.
  pub reserve_fails_open :
      (before rest : List ReserveTarget) (t : ReserveTarget)
      → All IsFull before
      → read s (slot t) ≡ broken
      → run H (reserve (before ++ t ∷ rest) now_ms max_age_ms) s
        ≡ (record { pick = reserve_fail_open; token = [] }, s)
  reserve_fails_open before rest t h e =
      reserve-skip before (t ∷ rest) h
      ∙ walk_head (length before) t rest
          (run-reserve_inflight_broken H t.ref.key t.max_run now_ms max_age_ms s e)
      ∙ verdict-degraded (length before) (reserve_from (suc (length before)) rest now_ms max_age_ms)
          s

  -- Where the first target that is not full can be read, the walk answers its 1-based place with the
  -- token of the start, stores the start behind that target's live entries, and changes no other key.
  pub reserve_first_room :
      (before rest : List ReserveTarget) (t : ReserveTarget)
      → All IsFull before
      → IsReadable t
      → is_full t.max_run (live_of t) ≡ false
      → ((run H (reserve (before ++ t ∷ rest) now_ms max_age_ms) s).0
          ≡ record { pick = pos (suc (length before)); token = token_for_start now_ms })
        × (starts_at H (slot t) (run H (reserve (before ++ t ∷ rest) now_ms max_age_ms) s).1
            ≡ live_of t ++ now_ms ∷ [])
        × ((j : Bytes)
            → j ≢ slot t
            → read (run H (reserve (before ++ t ∷ rest) now_ms max_age_ms) s).1 j ≡ read s j)
  reserve_first_room before rest t h readable room =
      let p = reserve_inflight t.ref.key t.max_run now_ms max_age_ms in
      let others = reserve_from (suc (length before)) rest now_ms max_age_ms in
      let (result, left, untouched) : Leaves H (slot t) t.max_run now_ms max_age_ms
          (starts_at H (slot t) s) s (run H p s) =
        run-reserve_inflight H t.ref.key t.max_run now_ms max_age_ms s readable in
      let u = (run H p s).1 in
      let walked : run H (reserve (before ++ t ∷ rest) now_ms max_age_ms) s
          ≡ (record { pick = pos (suc (length before)); token = token_for_start now_ms }, u) =
        reserve-skip before (t ∷ rest) h
        ∙ walk_head (length before) t rest refl
        ∙ ap (λ r. run H (reserve_verdict (length before) now_ms others r) u) (result ∙ (rw room))
        ∙ verdict-granted (length before) others u in
      rw walked (refl, left ∙ (rw room), untouched)
