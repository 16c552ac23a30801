-- ===== src/Lb/State/Removal.antt =====
-- A removal alone: what it stores, and that it undoes a reservation.
use gpustack_higress_plugin.Common.{
  ℕ, suc, Bytes, Bool, true, false, ◌≡◌, ◌≢◌, refl, sym, ap, ◌∙◌, inl, inr, List, [], ◌∷◌, ℤ, pos,
  arith, ◌==◌, ==_iff, Bool-cases, not, ◌&&◌, length, eq64, keep, length-keep,
}
use gpustack_higress_plugin.Host.{Reply, found, missing, broken, SharedData, Program, run}
use gpustack_higress_plugin.Lb.State.{
  Blob, inflight_doc, decode_inflight, prune_starts, is_live, remove_first, remove_attempts,
  remove_loaded, inflight_of, inflight_key, remove_inflight,
}
use gpustack_higress_plugin.Lb.State.Run.{starts_at, starts_at-write}

keep-eq_of_length :
    {A : Type 0} (p : A → Bool) (l : List A) → length (keep p l) ≡ length l → keep p l ≡ l
keep-eq_of_length p [] e = refl
keep-eq_of_length p (x ∷ l) e = elim (Bool-cases (p x)) [
  | inl yes_p ↦ rw yes_p (ap (λ r. x ∷ r) (keep-eq_of_length p l (shorter yes_p)))
  | inr no_p ↦ absurd (longer no_p)
]
  where
    shorter : p x ≡ true → length (keep p l) ≡ length l
    shorter h = ground (arith, e)

    longer : p x ≡ false → ⊥
    longer h = ground (arith, e, length-keep p l)

remove_first-none :
    (start_ms : ℤ) (l : List ℤ)
    → (remove_first start_ms l).1 ≡ false
    → (remove_first start_ms l).0 ≡ l
unfolding remove_first
remove_first-none start_ms [] e = refl
remove_first-none start_ms (ts ∷ l) e = elim (Bool-cases (eq64 ts start_ms)) [
  | inl same ↦ let impossible : true ≡ false = (rw same at e) in cc
  | inr other ↦ rw other (ap (λ r. ts ∷ r) (remove_first-none start_ms l (rw other at e)))
]

prune_starts-eq_of_length :
    (l : List ℤ) (n a : ℤ) → length (prune_starts l n a) ≡ length l → prune_starts l n a ≡ l
unfolding prune_starts
prune_starts-eq_of_length l n a e = keep-eq_of_length (is_live n a) l e

-- The test by which removeInflight writes nothing: the list is as it was.
unchanged-eq :
    (start_ms now_ms max_age_ms : ℤ) (l : List ℤ)
    → (not (remove_first start_ms (prune_starts l now_ms max_age_ms)).1
        && (length (remove_first start_ms (prune_starts l now_ms max_age_ms)).0 == length l))
      ≡ true
    → l ≡ (remove_first start_ms (prune_starts l now_ms max_age_ms)).0
unchanged-eq start_ms now_ms max_age_ms l h =
    let live = prune_starts l now_ms max_age_ms in
    let unremoved : (remove_first start_ms live).1 ≡ false = not_and _ _ h in
    let kept : (remove_first start_ms live).0 ≡ live = remove_first-none start_ms live unremoved in
    let same : length live ≡ length l = ap length (sym kept) ∙ (==_iff _ _).0 (and_right _ _ h) in
    sym (kept ∙ prune_starts-eq_of_length l now_ms max_age_ms same)
  where
    not_and : (a b : Bool) → (not a && b) ≡ true → a ≡ false
    not_and a b e = ground arith

    and_right : (a b : Bool) → (not a && b) ≡ true → b ≡ true
    and_right a b e = ground arith

module _ (H : SharedData Blob) (k : Bytes) (start_ms now_ms max_age_ms : ℤ) where
  open H use {State, read, write, write_current, write_stores, write_others}

  -- What a removal leaves: the live entries less the first one with the request's start.
  abbrev pub Removed : State → State → Type 0
  Removed s t =
      (starts_at H k t
        ≡ (remove_first start_ms (prune_starts (starts_at H k s) now_ms max_age_ms)).0)
      × ((j : Bytes) → j ≢ k → read t j ≡ read s j)

  run-remove_attempts :
      (s : State) (n : ℕ)
      → run H (remove_attempts (suc n) k start_ms now_ms max_age_ms) s
        ≡ run H
            (remove_loaded k start_ms now_ms max_age_ms
              (remove_attempts n k start_ms now_ms max_age_ms)
              (inflight_of (read s k)))
            s
  unfolding run remove_attempts
  run-remove_attempts s n = refl

  remove_found-Removed :
      (s : State) (again : Program Blob (Unit {0})) (v : Blob) (c : ℕ)
      → read s k ≡ found v c
      → Removed s
          (run H (remove_loaded k start_ms now_ms max_age_ms again (inflight_of (found v c))) s).1
  unfolding run remove_loaded
  remove_found-Removed s again v c stored =
      let l = (decode_inflight v).starts in
      let live = prune_starts l now_ms max_age_ms in
      let (starts, removed) = remove_first start_ms live in
      let same : starts_at H k s ≡ l = ap (λ r. (inflight_of r).state.starts) stored in
      elim (Bool-cases (not removed && (length starts == length l))) [
        | inl e ↦ rw e (rw same (unchanged-eq start_ms now_ms max_age_ms l e), λ j other. refl)
        | inr e ↦ rw e (
            rw (write_current s k (inflight_doc (record { starts = starts })) v c stored, run)
              (
                starts_at-write H k s starts c (write_current s k _ v c stored)
                    ∙ ap (λ m. (remove_first start_ms (prune_starts m now_ms max_age_ms)).0)
                        (sym same),
                λ j other. write_others s k j _ c other,
              ))
      ]

  remove_missing-Removed :
      (s : State) (again : Program Blob (Unit {0}))
      → read s k ≡ missing
      → Removed s
          (run H (remove_loaded k start_ms now_ms max_age_ms again (inflight_of missing)) s).1
  unfolding run remove_loaded
  remove_missing-Removed s again absent =
      let same : starts_at H k s ≡ [] = ap (λ r. (inflight_of r).state.starts) absent in
      (
        same ∙ ap (λ m. (remove_first start_ms (prune_starts m now_ms max_age_ms)).0) (sym same),
        λ j other. refl,
      )

  -- A removal on a key that can be read.
  pub remove_attempts-Removed :
      (s : State) (n : ℕ)
      → read s k ≢ broken
      → Removed s (run H (remove_attempts (suc n) k start_ms now_ms max_age_ms) s).1
  remove_attempts-Removed s n readable = rw (run-remove_attempts s n) (by_reply (read s k) refl)
    where
      again : Program Blob (Unit {0})
      again = remove_attempts n k start_ms now_ms max_age_ms

      by_reply :
          (r : Reply Blob)
          → read s k ≡ r
          → Removed s
              (run H
                (remove_loaded k start_ms now_ms max_age_ms again (inflight_of (read s k)))
                s).1
      by_reply (found v c) e = rw e (remove_found-Removed s again v c e)
      by_reply missing e = rw e (remove_missing-Removed s again e)
      by_reply broken e = absurd (readable e)

-- A removal that no other worker interrupts, on a target whose state can be read and at a start that
-- is not 0, leaves the live entries less the first one with that start; no other key changes.
pub run-remove_inflight :
    (H : SharedData Blob) (key : Bytes) (start_ms now_ms max_age_ms : ℤ) (s : SharedData.State H)
    → SharedData.read H s (inflight_key key) ≢ broken
    → eq64 start_ms (pos 0) ≡ false
    → Removed H
        (inflight_key key)
        start_ms
        now_ms
        max_age_ms
        s
        (run H (remove_inflight key start_ms now_ms max_age_ms) s).1
unfolding remove_inflight
run-remove_inflight H key start_ms now_ms max_age_ms s readable some_start =
    rw some_start
      (remove_attempts-Removed H (inflight_key key) start_ms now_ms max_age_ms s 19 readable)
