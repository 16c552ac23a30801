-- ===== src/Lb/State/Atomic.antt =====
-- The in-flight routines follow the compare-and-swap discipline: on a key that exists, a
-- reservation and a removal are single operations on the list that stands there.
use gpustack_higress_plugin.Common.{
  ℕ, zero, suc, Bytes, false, ◌≡◌, ◌≢◌, refl, some, none, inl, inr, ◌⊎◌, List, [], ◌∷◌, ◌++◌, ℤ, ap,
  ◌==◌, ==_iff, Bool-cases, eq64, pos, if◌then◌else◌, not, ◌&&◌, length,
}
use gpustack_higress_plugin.Host.{found, Status, ok, cas_mismatch, failed, Program, ret}
use gpustack_higress_plugin.Host.Interleave.{Follows, Known, Allowed}
use gpustack_higress_plugin.Lb.State.{
  Blob, inflight_doc, reserve_inflight, remove_inflight, inflight_key, cas_max_retries,
  remove_cas_retries, decode_inflight, prune_starts, is_full, remove_first, reserve_loaded,
  remove_loaded, reserve_attempts, Reserved, Loaded, InflightState, inflight_of, remove_attempts,
  settled, is_error, granted, degraded,
}

-- What a worker does with one target, each at its own time.
pub data Job : Type 0 where
  reserve : (now_ms max_age_ms : ℤ) → Job
  release : (start_ms now_ms max_age_ms : ℤ) → Job

-- A job's whole effect on a list, at the job's own times. A reservation: the list had room after
-- pruning, and the job's start is at its end. A removal: the list after pruning, less the first
-- entry with the request's start.
abbrev pub Applies : ℤ → Job → Blob → Blob → Type 0
Applies max_run (reserve now_ms max_age_ms) v w =
    (is_full max_run (prune_starts (decode_inflight v).starts now_ms max_age_ms) ≡ false)
    × (w
        ≡ inflight_doc (record {
          starts = prune_starts (decode_inflight v).starts now_ms max_age_ms ++ now_ms ∷ [];
        }))
Applies max_run (release start_ms now_ms max_age_ms) v w =
    w
    ≡ inflight_doc (record {
      starts =
          (remove_first start_ms (prune_starts (decode_inflight v).starts now_ms max_age_ms)).0;
    })

-- One of the jobs is applied.
abbrev pub Updates : ℤ → List Job → Blob → Blob → Type 0
Updates max_run [] v w = ⊥
Updates max_run (job ∷ jobs) v w = Applies max_run job v w ⊎ Updates max_run jobs v w

module _ (k : Bytes) (max_run : ℤ) (Op : Blob → Blob → Type 0) where
  abbrev Keeps : {A : Type 0} → Program Blob A → Known Blob → Type 0
  Keeps p known = Follows k Op p known

  -- Each effect of the job is one of the operations.
  abbrev Covers : Job → Type 0
  Covers job = (v w : Blob) → Applies max_run job v w → Op v w

  -- What a compare-and-swap loop does when its write has been answered.
  Keeps-settled :
      {A : Type 0} (p q : Program Blob A)
      → Keeps p none
      → Keeps q none
      → (r : Status) → Keeps (if settled r then p else q) none
  Keeps-settled p q hp hq ok = hp
  Keeps-settled p q hp hq cas_mismatch = hq
  Keeps-settled p q hp hq failed = hp

  Keeps-is_error :
      {A : Type 0} (p q : Program Blob A)
      → Keeps p none
      → Keeps q none
      → (r : Status) → Keeps (if is_error r then p else q) none
  Keeps-is_error p q hp hq ok = hq
  Keeps-is_error p q hp hq cas_mismatch = hp
  Keeps-is_error p q hp hq failed = hp

  module _ (j : Bytes) (now_ms max_age_ms : ℤ) (covers : Covers (reserve now_ms max_age_ms))
      (again : Program Blob Reserved) (h : Keeps again none) where
    reserve_found-Keeps :
        (v : Blob) (c : ℕ)
        → c ≢ 0
        → Keeps
            (reserve_loaded j max_run now_ms max_age_ms again (inflight_of (found v c)))
            (some (v, c))
    unfolding reserve_loaded
    reserve_found-Keeps v c nonzero = elim (Bool-cases (c == 0)) [
      | inl e ↦ absurd (nonzero ((==_iff c 0).0 e))
      | inr e ↦
          rw e
            (elim (Bool-cases
              (is_full max_run (prune_starts (decode_inflight v).starts now_ms max_age_ms))) [
                | inl full ↦ rw full tt
                | inr room ↦ rw room (
                  λ _. (refl, nonzero, covers v _ (room, refl)),
                  Keeps-settled (ret granted) again tt h,
                )
              ])
    ]

    reserve_other-Keeps :
        (l : Loaded InflightState)
        → j ≢ k
        → Keeps (reserve_loaded j max_run now_ms max_age_ms again l) none
    unfolding reserve_loaded
    reserve_other-Keeps l other = elim (Bool-cases l.loaded) [
      | inr e ↦ rw e tt
      | inl e ↦ rw e (elim (Bool-cases (l.cas == 0)) [
        | inl absent ↦
            rw absent ((λ same. absurd (other same)), Keeps-is_error (ret degraded) again tt h)
        | inr present ↦
            rw present
              (elim (Bool-cases (is_full max_run (prune_starts l.state.starts now_ms max_age_ms))) [
                | inl full ↦ rw full tt
                | inr room ↦
                    rw room ((λ same. absurd (other same)), Keeps-settled (ret granted) again tt h)
              ])
      ])
    ]

  pub reserve_attempts-Keeps :
      (n : ℕ) (j : Bytes) (now_ms max_age_ms : ℤ)
      → Covers (reserve now_ms max_age_ms)
      → (known : Known Blob) → Keeps (reserve_attempts n j max_run now_ms max_age_ms) known
  unfolding reserve_attempts
  reserve_attempts-Keeps zero j now_ms max_age_ms covers known = tt
  reserve_attempts-Keeps (suc n) j now_ms max_age_ms covers known =
      let again = reserve_attempts n j max_run now_ms max_age_ms in
      let h : Keeps again none = reserve_attempts-Keeps n j now_ms max_age_ms covers none in
      (
        λ v c same nonzero. reserve_found-Keeps j now_ms max_age_ms covers again h v c nonzero,
        tt,
        λ r other. reserve_other-Keeps j now_ms max_age_ms covers again h (inflight_of r) other,
      )

  module _ (j : Bytes) (start_ms now_ms max_age_ms : ℤ) (again : Program Blob (Unit {0}))
      (h : Keeps again none) where
    remove_loaded-Keeps :
        (l : Loaded InflightState) (known : Known Blob)
        → ((starts : List ℤ)
            → starts ≡ (remove_first start_ms (prune_starts l.state.starts now_ms max_age_ms)).0
            → j ≡ k
            → Allowed k Op known (inflight_doc (record { starts = starts })) l.cas)
        → Keeps (remove_loaded j start_ms now_ms max_age_ms again l) known
    unfolding remove_loaded
    remove_loaded-Keeps l known allowed =
        let live = prune_starts l.state.starts now_ms max_age_ms in
        let (starts, removed) = remove_first start_ms live in
        elim (Bool-cases l.loaded) [
          | inr e ↦ rw e tt
          | inl e ↦
              rw e (elim (Bool-cases (not removed && (length starts == length l.state.starts))) [
                | inl same ↦ rw same tt
                | inr changed ↦ rw changed (allowed starts refl, Keeps-settled (ret tt) again tt h)
              ])
        ]

  pub remove_attempts-Keeps :
      (n : ℕ) (j : Bytes) (start_ms now_ms max_age_ms : ℤ)
      → Covers (release start_ms now_ms max_age_ms)
      → (known : Known Blob) → Keeps (remove_attempts n j start_ms now_ms max_age_ms) known
  unfolding remove_attempts
  remove_attempts-Keeps zero j start_ms now_ms max_age_ms covers known = tt
  remove_attempts-Keeps (suc n) j start_ms now_ms max_age_ms covers known =
      let again = remove_attempts n j start_ms now_ms max_age_ms in
      let h : Keeps again none = remove_attempts-Keeps n j start_ms now_ms max_age_ms covers none in
      let step = remove_loaded-Keeps j start_ms now_ms max_age_ms again h in
      (
        λ v c same nonzero. step (inflight_of (found v c)) (some (v, c)) (λ starts e _.
            (refl, nonzero, covers v _ (ap (λ l. inflight_doc (record { starts = l })) e))),
        tt,
        λ r other. step (inflight_of r) none (λ starts e same. absurd (other same)),
      )

  pub reserve_inflight-Keeps :
      (key : Bytes) (now_ms max_age_ms : ℤ)
      → Covers (reserve now_ms max_age_ms)
      → Keeps (reserve_inflight key max_run now_ms max_age_ms) none
  unfolding reserve_inflight
  reserve_inflight-Keeps key now_ms max_age_ms covers =
      reserve_attempts-Keeps cas_max_retries (inflight_key key) now_ms max_age_ms covers none

  pub remove_inflight-Keeps :
      (key : Bytes) (start_ms now_ms max_age_ms : ℤ)
      → Covers (release start_ms now_ms max_age_ms)
      → Keeps (remove_inflight key start_ms now_ms max_age_ms) none
  unfolding remove_inflight
  remove_inflight-Keeps key start_ms now_ms max_age_ms covers =
      elim (Bool-cases (eq64 start_ms (pos 0))) [
        | inl e ↦ rw e tt
        | inr e ↦ rw e (
            remove_attempts-Keeps remove_cas_retries (inflight_key key) start_ms now_ms max_age_ms
              covers none)
      ]
