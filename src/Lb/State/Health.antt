-- ===== src/Lb/State/Health.antt =====
-- recordSuccess and recordFailure alone.
pub mod Ejection
use gpustack_higress_plugin.Common.{
  ℕ, zero, suc, ◌+◌, ◌<◌, ◌≤◌, ◌^◌, Bytes, true, false, ◌≡◌, ◌≢◌, refl, sym, ap, ◌∙◌, subst, inl,
  inr, List, [], ◌∷◌, ◌++◌, ℤ, pos, le64, eq64, add64, arith, Bool-cases, not, if◌then◌else◌,
  length, eq_of_parts, add64_of_sum, ==_iff, ◌||◌,
}
use gpustack_higress_plugin.Host.{
  Reply, found, missing, broken, Status, ok, SharedData, Program, ret, run, ◌>>=◌,
}
use gpustack_higress_plugin.Host.Run.{run-bind}
use gpustack_higress_plugin.Host.Confined.{Confined, run-Confined}
use gpustack_higress_plugin.Lb.State.{
  Blob, health_doc, HealthState, health_of, health_key, success_attempts, success_loaded,
  failure_attempts, failure_loaded, settled, failed_once, record_success, record_failure, Loaded,
}

module _ (k : Bytes) where
  success_loaded-Confined :
      (again : Program Blob (Unit {0})) (l : Loaded HealthState)
      → Confined k again
      → Confined k (success_loaded k again l)
  unfolding success_loaded
  success_loaded-Confined again l h =
      elim (Bool-cases (not l.loaded || eq64 l.state.fails (pos 0))) [
        | inl stop ↦ rw stop tt
        | inr go ↦ rw go (
          refl,
          λ status. elim (Bool-cases (settled status)) [ inl e ↦ rw e tt | inr e ↦ rw e h ],
        )
      ]

  pub success_attempts-Confined : (n : ℕ) → Confined k (success_attempts n k)
  unfolding success_attempts
  success_attempts-Confined zero = tt
  success_attempts-Confined (suc n) = λ r.
      success_loaded-Confined (success_attempts n k) (health_of r) (success_attempts-Confined n)

  module _ (threshold cooldown_ms ramp_ms now_ms : ℤ) where
    failure_loaded-Confined :
        (again : Program Blob (Unit {0})) (l : Loaded HealthState)
        → Confined k again
        → Confined k (failure_loaded k threshold cooldown_ms ramp_ms now_ms again l)
    unfolding failure_loaded
    failure_loaded-Confined again l h = elim (Bool-cases (not l.loaded)) [
      | inl stop ↦ rw stop tt
      | inr go ↦
          rw go (
            refl,
            λ status. elim (Bool-cases (settled status)) [ inl e ↦ rw e tt | inr e ↦ rw e h ],
          )
    ]

    pub failure_attempts-Confined :
        (n : ℕ) → Confined k (failure_attempts n k threshold cooldown_ms ramp_ms now_ms)
    unfolding failure_attempts
    failure_attempts-Confined zero = tt
    failure_attempts-Confined (suc n) =
        λ r. failure_loaded-Confined _ (health_of r) (failure_attempts-Confined n)

module _ (H : SharedData Blob) (k : Bytes) where
  open H use {State, read, write, write_current, write_unconditional, write_stores}

  -- The health under the key; an absent key holds a zero one.
  abbrev pub health_at : State → HealthState
  health_at s = (health_of (read s k)).state

  health_at-write :
      (s : State) (h : HealthState) (c : ℕ)
      → (write s k (health_doc h) c).0 ≡ ok
      → health_at (write s k (health_doc h) c).1 ≡ h
  health_at-write s h c done =
      let (n, stored, _) = write_stores s k (health_doc h) c done in
      ap (λ r. (health_of r).state) stored

  readable_after :
      (s : State) (h : HealthState) (c : ℕ)
      → (write s k (health_doc h) c).0 ≡ ok
      → read (write s k (health_doc h) c).1 k ≢ broken
  readable_after s h c done e =
      let (n, stored, _) = write_stores s k (health_doc h) c done in cc (stored, e)

  -- The write that follows a read of the same state goes through.
  write_after_read :
      (s : State) (v : Blob) → read s k ≢ broken → (write s k v (health_of (read s k)).cas).0 ≡ ok
  write_after_read s v readable = by_reply (read s k) refl
    where
      by_reply : (r : Reply Blob) → read s k ≡ r → (write s k v (health_of (read s k)).cas).0 ≡ ok
      by_reply (found w c) e = rw e (write_current s k v w c e)
      by_reply missing e = rw e (write_unconditional s k v)
      by_reply broken e = absurd (readable e)

  loaded_of_readable : (s : State) → read s k ≢ broken → (health_of (read s k)).loaded ≡ true
  loaded_of_readable s readable = by_reply (read s k) refl
    where
      by_reply : (r : Reply Blob) → read s k ≡ r → (health_of (read s k)).loaded ≡ true
      by_reply (found w c) e = rw e
      by_reply missing e = rw e
      by_reply broken e = absurd (readable e)

  run-failure_attempts :
      (s : State) (n : ℕ) (threshold cooldown_ms ramp_ms now_ms : ℤ)
      → run H (failure_attempts (suc n) k threshold cooldown_ms ramp_ms now_ms) s
        ≡ run H
            (failure_loaded k threshold cooldown_ms ramp_ms now_ms
              (failure_attempts n k threshold cooldown_ms ramp_ms now_ms)
              (health_of (read s k)))
            s
  unfolding run failure_attempts
  run-failure_attempts s n threshold cooldown_ms ramp_ms now_ms = refl

  run-success_attempts :
      (s : State) (n : ℕ)
      → run H (success_attempts (suc n) k) s
        ≡ run H (success_loaded k (success_attempts n k) (health_of (read s k))) s
  unfolding run success_attempts
  run-success_attempts s n = refl

  run-failure_loaded :
      (s : State) (threshold cooldown_ms ramp_ms now_ms : ℤ) (again : Program Blob (Unit {0}))
      (l : Loaded HealthState)
      → l.loaded ≡ true
      → (write s k (health_doc (failed_once l.state threshold cooldown_ms ramp_ms now_ms)) l.cas).0
        ≡ ok
      → run H (failure_loaded k threshold cooldown_ms ramp_ms now_ms again l) s ≡ (
        tt,
        (write s k (health_doc (failed_once l.state threshold cooldown_ms ramp_ms now_ms)) l.cas).1,
      )
  unfolding run failure_loaded
  run-failure_loaded s threshold cooldown_ms ramp_ms now_ms again l loaded written =
      rw loaded (rw (written, run) refl)

  run-success_loaded :
      (s : State) (again : Program Blob (Unit {0})) (l : Loaded HealthState)
      → l.loaded ≡ true
      → (write s k (health_doc (record l.state { fails = pos 0 })) l.cas).0 ≡ ok
      → run H (success_loaded k again l) s ≡ (
        tt,
        if eq64 l.state.fails (pos 0)
            then s
            else (write s k (health_doc (record l.state { fails = pos 0 })) l.cas).1,
      )
  unfolding run success_loaded
  run-success_loaded s again l loaded written = elim (Bool-cases (eq64 l.state.fails (pos 0))) [
    | inl e ↦ rw (loaded, e) refl
    | inr e ↦ rw (loaded, e) (rw (written, run) refl)
  ]

  pub failure_attempts-failed_once :
      (s : State) (n : ℕ) (threshold cooldown_ms ramp_ms now_ms : ℤ)
      → read s k ≢ broken
      → (health_at (run H (failure_attempts (suc n) k threshold cooldown_ms ramp_ms now_ms) s).1
          ≡ failed_once (health_at s) threshold cooldown_ms ramp_ms now_ms)
        × (read (run H (failure_attempts (suc n) k threshold cooldown_ms ramp_ms now_ms) s).1 k
            ≢ broken)
  failure_attempts-failed_once s n threshold cooldown_ms ramp_ms now_ms readable =
      let h = failed_once (health_at s) threshold cooldown_ms ramp_ms now_ms in
      let l = health_of (read s k) in
      let again = failure_attempts n k threshold cooldown_ms ramp_ms now_ms in
      let written = write_after_read s (health_doc h) readable in
      let left : run H (failure_attempts (suc n) k threshold cooldown_ms ramp_ms now_ms) s
          ≡ (tt, (write s k (health_doc h) l.cas).1) =
        run-failure_attempts s n threshold cooldown_ms ramp_ms now_ms
        ∙ run-failure_loaded s threshold cooldown_ms ramp_ms now_ms again l
            (loaded_of_readable s readable) written in
      rw left (health_at-write s h l.cas written, readable_after s h l.cas written)

  -- What a success leaves: the stamps, and no failures.
  pub success_attempts-reset :
      (s : State) (n : ℕ)
      → read s k ≢ broken
      → health_at (run H (success_attempts (suc n) k) s).1 ≡ record (health_at s) { fails = pos 0 }
  success_attempts-reset s n readable =
      let h = record (health_at s) { fails = pos 0 } in
      let l = health_of (read s k) in
      let written = write_after_read s (health_doc h) readable in
      ap (λ (r : Unit {0} × State). health_at r.1)
        (run-success_attempts s n
          ∙ run-success_loaded s (success_attempts n k) l (loaded_of_readable s readable) written)
      ∙ (elim (Bool-cases (eq64 l.state.fails (pos 0))) [
        | inl e ↦
            rw e (ap (λ f. record (health_at s) { fails = f }) (eq_of_parts _ _ ((==_iff _ _).0 e)))
        | inr e ↦ rw e (health_at-write s h l.cas written)
      ])

module _ (H : SharedData Blob) (cluster : Bytes) where
  open H use {State, read}

  -- A failure alone, on a cluster whose state can be read.
  pub run-record_failure :
      (threshold cooldown_ms ramp_ms now_ms : ℤ) (s : State)
      → read s (health_key cluster) ≢ broken
      → (health_at H
            (health_key cluster)
            (run H (record_failure cluster threshold cooldown_ms ramp_ms now_ms) s).1
          ≡ failed_once (health_at H (health_key cluster) s) threshold cooldown_ms ramp_ms now_ms)
        × (read
              (run H (record_failure cluster threshold cooldown_ms ramp_ms now_ms) s).1
              (health_key cluster)
            ≢ broken)
  unfolding record_failure
  run-record_failure threshold cooldown_ms ramp_ms now_ms s readable =
      failure_attempts-failed_once H (health_key cluster) s 9 threshold cooldown_ms ramp_ms now_ms
        readable

  -- A success, on a cluster whose state can be read, sets the count of failures to 0 and keeps the
  -- stamps; it changes no other key.
  pub run-record_success :
      (s : State)
      → read s (health_key cluster) ≢ broken
      → (health_at H (health_key cluster) (run H (record_success cluster) s).1
          ≡ record (health_at H (health_key cluster) s) { fails = pos 0 })
        × ((j : Bytes)
            → j ≢ health_key cluster
            → read (run H (record_success cluster) s).1 j ≡ read s j)
  unfolding record_success
  run-record_success s readable = (
    success_attempts-reset H (health_key cluster) s 9 readable,
    λ j other.
        run-Confined (health_key cluster) H (success_attempts 10 (health_key cluster)) s j
          (success_attempts-Confined (health_key cluster) 10) other,
  )
