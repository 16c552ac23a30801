-- ===== src/Lb/State/Health/Ejection.antt =====
-- A run of failures: they are counted, and the one that reaches the threshold ejects the cluster.
use gpustack_higress_plugin.Common.{
  ℕ, suc, ◌+◌, ◌<◌, ◌^◌, Bytes, true, false, ◌≡◌, ◌≢◌, refl, ap, ◌∙◌, List, [], ◌∷◌, ◌++◌, ℤ, pos,
  le64, add64, arith, length, add64_of_sum,
}
use gpustack_higress_plugin.Host.{broken, SharedData, Program, ret, run, ◌>>=◌}
use gpustack_higress_plugin.Host.Run.{run-bind}
use gpustack_higress_plugin.Lb.State.{Blob, HealthState, health_key, failed_once, record_failure}
use gpustack_higress_plugin.Lb.State.Health.{health_at, run-record_failure}

-- The failures at the given times, one after the other.
abbrev pub failures : Bytes → ℤ → ℤ → ℤ → List ℤ → Program Blob (Unit {0})
failures cluster threshold cooldown_ms ramp_ms [] = ret tt
failures cluster threshold cooldown_ms ramp_ms (now_ms ∷ times) =
    record_failure cluster threshold cooldown_ms ramp_ms now_ms >>= λ _.
    failures cluster threshold cooldown_ms ramp_ms times

stays : (n m : ℕ) → suc m < n → le64 (pos n) (pos (suc m)) ≡ false
stays n m low = ground arith

ejects : (m : ℕ) → le64 (pos (suc m)) (pos (suc m)) ≡ true
ejects m = ground arith

below_threshold :
    (h : HealthState) (n m : ℕ) (cooldown_ms ramp_ms now_ms : ℤ)
    → suc m < n
    → n < 2 ^ 63
    → h.fails ≡ pos m
    → failed_once h (pos n) cooldown_ms ramp_ms now_ms ≡ record h { fails = pos (suc m) }
unfolding failed_once
below_threshold h n m cooldown_ms ramp_ms now_ms low small e =
    let next : add64 h.fails (pos 1) ≡ pos (suc m) =
      rw e (add64_of_sum m 1 (omega arith) ∙ ap pos (omega arith)) in
    rw (next, stays n m low) refl

at_threshold :
    (h : HealthState) (m : ℕ) (cooldown_ms ramp_ms now_ms : ℤ)
    → suc m < 2 ^ 63
    → h.fails ≡ pos m
    → failed_once h (pos (suc m)) cooldown_ms ramp_ms now_ms ≡ record {
      fails = pos 0;
      ejected_until = add64 now_ms cooldown_ms;
      ramp_until = add64 (add64 now_ms cooldown_ms) ramp_ms;
    }
unfolding failed_once
at_threshold h m cooldown_ms ramp_ms now_ms small e =
    let next : add64 h.fails (pos 1) ≡ pos (suc m) =
      rw e (add64_of_sum m 1 (omega arith) ∙ ap pos (omega arith)) in
    rw (next, ejects m) refl

module _ (H : SharedData Blob) (cluster : Bytes) where
  open H use {State, read}

  module _ (n : ℕ) (cooldown_ms ramp_ms : ℤ) where
    abbrev pub after : List ℤ → State → State
    after times s = (run H (failures cluster (pos n) cooldown_ms ramp_ms times) s).1

    failures-cons :
        (now_ms : ℤ) (times : List ℤ) (s : State)
        → after (now_ms ∷ times) s
          ≡ after times (run H (record_failure cluster (pos n) cooldown_ms ramp_ms now_ms) s).1
    failures-cons now_ms times s =
        ap (λ (r : Unit {0} × State). r.1)
          (run-bind H (record_failure cluster (pos n) cooldown_ms ramp_ms now_ms)
            (λ _. failures cluster (pos n) cooldown_ms ramp_ms times) s)

    after_nil : (s : State) → after [] s ≡ s
    unfolding run
    after_nil s = refl

    -- One failure below the threshold.
    counted :
        (now_ms : ℤ) (s : State) (m : ℕ) (h : HealthState)
        → n < 2 ^ 63
        → read s (health_key cluster) ≢ broken
        → health_at H (health_key cluster) s ≡ record h { fails = pos m }
        → suc m < n
        → health_at H
            (health_key cluster)
            (run H (record_failure cluster (pos n) cooldown_ms ramp_ms now_ms) s).1
          ≡ record h { fails = pos (suc m) }
    counted now_ms s m h small readable e low =
        (run-record_failure H cluster (pos n) cooldown_ms ramp_ms now_ms s readable).0
        ∙ ap (λ g. failed_once g (pos n) cooldown_ms ramp_ms now_ms) e
        ∙ below_threshold (record h { fails = pos m }) n m cooldown_ms ramp_ms now_ms low small refl

    failures-counted :
        (times : List ℤ) (s : State) (m : ℕ) (h : HealthState)
        → n < 2 ^ 63
        → read s (health_key cluster) ≢ broken
        → health_at H (health_key cluster) s ≡ record h { fails = pos m }
        → m + length times < n
        → health_at H (health_key cluster) (after times s)
          ≡ record h { fails = pos (m + length times) }
    failures-counted [] s m h small readable e low =
        ap (health_at H (health_key cluster)) (after_nil s)
        ∙ e
        ∙ ap (λ (f : ℕ). record h { fails = pos f }) (omega arith)
    failures-counted (t ∷ times) s m h small readable e low =
        ap (health_at H (health_key cluster)) (failures-cons t times s)
        ∙ failures-counted times _ (suc m) h small
            (run-record_failure H cluster (pos n) cooldown_ms ramp_ms t s readable).1
            (counted t s m h small readable e (omega (arith, low))) (omega (arith, low))
        ∙ ap (λ (f : ℕ). record h { fails = pos f }) (omega arith)

    -- What the failure that reaches the threshold leaves.
    abbrev pub ejected_at : ℤ → HealthState
    ejected_at now_ms = record {
      fails = pos 0;
      ejected_until = add64 now_ms cooldown_ms;
      ramp_until = add64 (add64 now_ms cooldown_ms) ramp_ms;
    }

    failures-eject :
        (times : List ℤ) (now_ms : ℤ) (s : State) (m : ℕ) (h : HealthState)
        → n < 2 ^ 63
        → read s (health_key cluster) ≢ broken
        → health_at H (health_key cluster) s ≡ record h { fails = pos m }
        → n ≡ suc m + length times
        → health_at H (health_key cluster) (after (times ++ now_ms ∷ []) s) ≡ ejected_at now_ms
    failures-eject [] now_ms s m h small readable e count =
        let reached : n ≡ suc m = omega (arith, count) in
        ap (health_at H (health_key cluster)) (failures-cons now_ms [] s ∙ after_nil _)
        ∙ (run-record_failure H cluster (pos n) cooldown_ms ramp_ms now_ms s readable).0
        ∙ ap (λ g. failed_once g (pos n) cooldown_ms ramp_ms now_ms) e
        ∙ ap
            (λ (l : ℕ). failed_once (record h { fails = pos m }) (pos l) cooldown_ms ramp_ms now_ms)
            reached
        ∙ at_threshold (record h { fails = pos m }) m cooldown_ms ramp_ms now_ms
            (omega (arith, small, reached)) refl
    failures-eject (t ∷ times) now_ms s m h small readable e count =
        ap (health_at H (health_key cluster)) (failures-cons t (times ++ now_ms ∷ []) s)
        ∙ failures-eject times now_ms _ (suc m) h small
            (run-record_failure H cluster (pos n) cooldown_ms ramp_ms t s readable).1
            (counted t s m h small readable e (omega (arith, count))) (omega (arith, count))

    -- On a cluster whose state can be read and that has no failure, fewer failures than the
    -- threshold n < 2^63 are counted and leave the stamps as they are; the n-th failure in a row
    -- resets the count and stamps the ejection from its own time.
    pub failures-eject_at_threshold :
        (times : List ℤ) (now_ms : ℤ) (s : State)
        → n < 2 ^ 63
        → read s (health_key cluster) ≢ broken
        → (health_at H (health_key cluster) s).fails ≡ pos 0
        → (length times < n
            → health_at H (health_key cluster) (after times s)
              ≡ record (health_at H (health_key cluster) s) { fails = pos (length times) })
          × (n ≡ suc (length times)
              → health_at H (health_key cluster) (after (times ++ now_ms ∷ []) s)
                ≡ ejected_at now_ms)
    failures-eject_at_threshold times now_ms s small readable none_yet =
        let h = health_at H (health_key cluster) s in
        let start : h ≡ record h { fails = pos 0 } =
          ap (λ (f : ℤ). record h { fails = f }) none_yet in
        (
          λ low.
              failures-counted times s 0 h small readable start (omega (arith, low))
              ∙ ap (λ (f : ℕ). record h { fails = pos f }) (omega arith),
          λ count. failures-eject times now_ms s 0 h small readable start (omega (arith, count)),
        )
