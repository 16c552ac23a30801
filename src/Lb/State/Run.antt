-- ===== src/Lb/State/Run.antt =====
-- One routine alone: what a reservation and a removal return and store, absent keys included.
use gpustack_higress_plugin.Common.{
  ℕ, suc, Bytes, true, false, ◌≡◌, ◌≢◌, refl, sym, ap, subst, ◌∙◌, inl, inr, List, [], ◌∷◌, ◌++◌, ℤ,
  arith, ◌==◌, Bool-cases, if◌then◌else◌,
}
use gpustack_higress_plugin.Host.{Reply, found, missing, broken, ok, SharedData, Program, run}
use gpustack_higress_plugin.Lb.State.{
  Blob, inflight_doc, decode_inflight, inflight_key, prune_starts, is_full, reserve_inflight,
  reserve_attempts, reserve_loaded, Reserved, granted, at_cap, degraded, inflight_of,
  empty_inflight,
}

pub not_zero : (c : ℕ) → c ≢ 0 → (c == 0) ≡ false
not_zero c h = ground arith

module _ (H : SharedData Blob) (k : Bytes) where
  open H use {
    State, read, write, read_issued, write_current, write_unconditional, write_stores, write_others,
  }

  -- The list under the key; an absent key holds none.
  abbrev pub starts_at : State → List ℤ
  starts_at s = (inflight_of (read s k)).state.starts

  pub starts_at-write :
      (s : State) (starts : List ℤ) (c : ℕ)
      → (write s k (inflight_doc (record { starts = starts })) c).0 ≡ ok
      → starts_at (write s k (inflight_doc (record { starts = starts })) c).1 ≡ starts
  starts_at-write s starts c done =
      let (n, stored, _) = write_stores s k (inflight_doc (record { starts = starts })) c done in
      ap (λ r. (inflight_of r).state.starts) stored

  module _ (max_run now_ms max_age_ms : ℤ) where
    abbrev live_at : State → List ℤ
    live_at s = prune_starts (starts_at s) now_ms max_age_ms

    abbrev entered : List ℤ → Blob
    entered starts = inflight_doc (record { starts = starts ++ now_ms ∷ [] })

    -- One attempt is a read and the loop's body.
    run-reserve_attempts :
        (s : State) (n : ℕ)
        → run H (reserve_attempts (suc n) k max_run now_ms max_age_ms) s
          ≡ run H
              (reserve_loaded k max_run now_ms max_age_ms
                (reserve_attempts n k max_run now_ms max_age_ms)
                (inflight_of (read s k)))
              s
    unfolding run reserve_attempts
    run-reserve_attempts s n = refl

    run-reserve_loaded :
        (s : State) (again : Program Blob Reserved) (v : Blob) (c : ℕ)
        → read s k ≡ found v c
        → run H (reserve_loaded k max_run now_ms max_age_ms again (inflight_of (found v c))) s ≡ (
            if is_full max_run (prune_starts (decode_inflight v).starts now_ms max_age_ms)
            then (at_cap, s)
            else (
              granted,
              (write s k (entered (prune_starts (decode_inflight v).starts now_ms max_age_ms)) c).1,
            ))
    unfolding run reserve_loaded
    run-reserve_loaded s again v c stored =
        rw (not_zero c (read_issued s k v c stored).0)
          (elim (Bool-cases
            (is_full max_run (prune_starts (decode_inflight v).starts now_ms max_age_ms))) [
              | inl full ↦ rw full
              | inr room ↦ rw room (
                  rw (
                    write_current s k
                        (entered (prune_starts (decode_inflight v).starts now_ms max_age_ms)) v c
                        stored,
                    run,
                  ))
            ])

    pub run-reserve_absent :
        (s : State) (again : Program Blob Reserved)
        → run H (reserve_loaded k max_run now_ms max_age_ms again (inflight_of missing)) s
          ≡ run H again (write s k empty_inflight 0).1
    unfolding run reserve_loaded
    run-reserve_absent s again = rw (write_unconditional s k empty_inflight, run)

    no_entry_not_full : is_full max_run [] ≡ false
    no_entry_not_full = ground arith

    -- What a reservation returns and leaves, where it meets the list `starts`.
    abbrev pub Leaves : List ℤ → State → Reserved × State → Type 0
    Leaves starts s result =
        (result.0
          ≡ (if is_full max_run (prune_starts starts now_ms max_age_ms) then at_cap else granted))
        × (starts_at result.1 ≡ (
            if is_full max_run (prune_starts starts now_ms max_age_ms)
            then starts
            else prune_starts starts now_ms max_age_ms ++ now_ms ∷ []))
        × ((j : Bytes) → j ≢ k → read result.1 j ≡ read s j)

    Leaves-found :
        (s : State) (n : ℕ) (v : Blob) (c : ℕ)
        → read s k ≡ found v c
        → Leaves
            (decode_inflight v).starts
            s
            (run H (reserve_attempts (suc n) k max_run now_ms max_age_ms) s)
    Leaves-found s n v c stored =
        let again = reserve_attempts n k max_run now_ms max_age_ms in
        let live = prune_starts (decode_inflight v).starts now_ms max_age_ms in
        let same : starts_at s ≡ (decode_inflight v).starts =
          ap (λ r. (inflight_of r).state.starts) stored in
        rw (run-reserve_attempts s n, stored, run-reserve_loaded s again v c stored)
          (elim (Bool-cases (is_full max_run live)) [
            | inl full ↦ rw full (refl, same, λ j other. refl)
            | inr room ↦ rw room (
              refl,
              starts_at-write s (live ++ now_ms ∷ []) c (write_current s k _ v c stored),
              λ j other. write_others s k j _ c other,
            )
          ])

    Leaves-missing :
        (s : State) (n : ℕ)
        → read s k ≡ missing
        → Leaves [] s (run H (reserve_attempts (suc (suc n)) k max_run now_ms max_age_ms) s)
    Leaves-missing s n absent =
        let again = reserve_attempts (suc n) k max_run now_ms max_age_ms in
        let t = (write s k empty_inflight 0).1 in
        let (c, stored, _) = write_stores s k empty_inflight 0 (write_unconditional s k _) in
        let (result, left, others) = Leaves-found t n empty_inflight c stored in
        rw (run-reserve_attempts s (suc n), absent, run-reserve_absent s again)
          (result, left, λ j other. others j other ∙ write_others s k j empty_inflight 0 other)

    -- A reservation on a key that can be read.
    pub reserve_attempts-Leaves :
        (s : State) (n : ℕ)
        → read s k ≢ broken
        → Leaves
            (starts_at s)
            s
            (run H (reserve_attempts (suc (suc n)) k max_run now_ms max_age_ms) s)
    reserve_attempts-Leaves s n readable = by_reply (read s k) refl
      where
        result : Reserved × State
        result = run H (reserve_attempts (suc (suc n)) k max_run now_ms max_age_ms) s

        by_reply : (r : Reply Blob) → read s k ≡ r → Leaves (starts_at s) s result
        by_reply (found v c) e =
            subst (λ l. Leaves l s result) (ap (λ r. (inflight_of r).state.starts) (sym e))
              (Leaves-found s (suc n) v c e)
        by_reply missing e =
            subst (λ l. Leaves l s result) (ap (λ r. (inflight_of r).state.starts) (sym e))
              (Leaves-missing s n e)
        by_reply broken e = absurd (readable e)

-- A reservation that no other worker interrupts, on a target whose state can be read (an absent key
-- included): it is refused exactly when the target has a cap and at least that many live entries;
-- otherwise the live entries and the new start are stored. No other key changes.
pub run-reserve_inflight :
    (H : SharedData Blob) (key : Bytes) (max_run now_ms max_age_ms : ℤ) (s : SharedData.State H)
    → SharedData.read H s (inflight_key key) ≢ broken
    → Leaves H
        (inflight_key key)
        max_run
        now_ms
        max_age_ms
        (starts_at H (inflight_key key) s)
        s
        (run H (reserve_inflight key max_run now_ms max_age_ms) s)
unfolding reserve_inflight
run-reserve_inflight H key max_run now_ms max_age_ms s readable =
    reserve_attempts-Leaves H (inflight_key key) max_run now_ms max_age_ms s 8 readable

no_room-absurd :
    (max_run now_ms max_age_ms : ℤ) → is_full max_run (prune_starts [] now_ms max_age_ms) ≡ true → ⊥
unfolding prune_starts
no_room-absurd max_run now_ms max_age_ms h = ground arith

run-reserve_attempts_full :
    (H : SharedData Blob) (k : Bytes) (max_run now_ms max_age_ms : ℤ) (s : SharedData.State H)
    (n : ℕ)
    → SharedData.read H s k ≢ broken
    → is_full max_run (prune_starts (starts_at H k s) now_ms max_age_ms) ≡ true
    → run H (reserve_attempts (suc n) k max_run now_ms max_age_ms) s ≡ (at_cap, s)
run-reserve_attempts_full H k max_run now_ms max_age_ms s n readable full =
    run-reserve_attempts H k max_run now_ms max_age_ms s n ∙ by_reply (SharedData.read H s k) refl
  where
    again : Program Blob Reserved
    again = reserve_attempts n k max_run now_ms max_age_ms

    holds :
        {r : Reply Blob}
        → SharedData.read H s k ≡ r
        → is_full max_run (prune_starts (inflight_of r).state.starts now_ms max_age_ms) ≡ true
    holds e =
        subst
          (λ x.
            is_full max_run (prune_starts (inflight_of x).state.starts now_ms max_age_ms) ≡ true)
          e full

    by_reply :
        (r : Reply Blob)
        → SharedData.read H s k ≡ r
        → run H
            (reserve_loaded k max_run now_ms max_age_ms again (inflight_of (SharedData.read H s k)))
            s
          ≡ (at_cap, s)
    by_reply (found v c) e =
        let none_left : is_full max_run (prune_starts (decode_inflight v).starts now_ms max_age_ms)
            ≡ true =
          holds e in
        rw (e, run-reserve_loaded H k max_run now_ms max_age_ms s again v c e, none_left)
    by_reply missing e = absurd (no_room-absurd max_run now_ms max_age_ms (holds e))
    by_reply broken e = absurd (readable e)

-- A refused reservation changes nothing at all.
pub run-reserve_inflight_full :
    (H : SharedData Blob) (key : Bytes) (max_run now_ms max_age_ms : ℤ) (s : SharedData.State H)
    → SharedData.read H s (inflight_key key) ≢ broken
    → is_full max_run (prune_starts (starts_at H (inflight_key key) s) now_ms max_age_ms) ≡ true
    → run H (reserve_inflight key max_run now_ms max_age_ms) s ≡ (at_cap, s)
unfolding reserve_inflight
run-reserve_inflight_full H key max_run now_ms max_age_ms s readable full =
    run-reserve_attempts_full H (inflight_key key) max_run now_ms max_age_ms s 9 readable full

pub run-reserve_inflight_broken :
    (H : SharedData Blob) (key : Bytes) (max_run now_ms max_age_ms : ℤ) (s : SharedData.State H)
    → SharedData.read H s (inflight_key key) ≡ broken
    → run H (reserve_inflight key max_run now_ms max_age_ms) s ≡ (degraded, s)
unfolding reserve_inflight run reserve_loaded
run-reserve_inflight_broken H key max_run now_ms max_age_ms s e =
    run-reserve_attempts H (inflight_key key) max_run now_ms max_age_ms s 9 ∙ (rw e)
