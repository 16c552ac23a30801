-- ===== src/Lb/State/InitRace.antt =====
-- The first reservations on a key that does not exist yet.
use gpustack_higress_plugin.Common.{
  ℕ, suc, ◌==◌, Bool-cases, inl, inr, Bytes, Bool, true, false, ◌≡◌, ◌≢◌, refl, sym, ap, ◌∙◌, List,
  [], ◌∷◌, ◌++◌, map, ℤ, pos, subst, if◌then◌else◌,
}
use gpustack_higress_plugin.Host.{
  Reply, found, missing, broken, SharedData, Program, ret, ◌>>=◌, run,
}
use gpustack_higress_plugin.Host.Run.{run-bind}
use gpustack_higress_plugin.Host.Interleave.{start, next, here, reads}
use gpustack_higress_plugin.Host.Interleave.Alone.{
  Succeeds, Succeeds-map, Runs, Runs-trans, run-Runs, Runs-behind,
}
use gpustack_higress_plugin.Lb.State.{
  Blob, inflight_doc, decode_inflight, inflight_key, prune_starts, is_full, reserve_inflight,
  reserve_attempts, reserve_loaded, Reserved, granted, at_cap, inflight_of, empty_inflight,
}
use gpustack_higress_plugin.Lb.State.Run.{
  not_zero, starts_at, run-reserve_inflight, reserve_attempts-Leaves, run-reserve_absent,
}
use gpustack_higress_plugin.Lb.State.Atomic.{reserve}
use gpustack_higress_plugin.Lb.State.HardCap.{routine}

module _ (H : SharedData Blob) (key : Bytes) (now_ms max_age_ms : ℤ) where
  open H use {State, read, write, read_issued, write_current, write_unconditional, write_stores}

  abbrev k : Bytes
  k = inflight_key key

  -- A list without entries leaves room under a cap of one, and keeps no entry.
  room :
      (starts : List ℤ)
      → starts ≡ []
      → is_full (pos 1) (prune_starts starts now_ms max_age_ms) ≡ false
  unfolding prune_starts
  room starts e = rw e refl

  none_kept : (starts : List ℤ) → starts ≡ [] → prune_starts starts now_ms max_age_ms ≡ []
  unfolding prune_starts
  none_kept starts e = rw e refl

  abbrev verdict : List ℤ → Reserved
  verdict starts =
      if is_full (pos 1) (prune_starts starts now_ms max_age_ms) then at_cap else granted

  verdict-granted : (starts : List ℤ) → starts ≡ [] → verdict starts ≡ granted
  verdict-granted starts e = ap (λ b. if b then at_cap else granted) (room starts e)

  abbrev left : List ℤ → List ℤ
  left starts =
      if is_full (pos 1) (prune_starts starts now_ms max_age_ms)
      then starts
      else prune_starts starts now_ms max_age_ms ++ now_ms ∷ []

  left-one : (starts : List ℤ) → starts ≡ [] → left starts ≡ now_ms ∷ []
  left-one starts e = rw (room starts e, none_kept starts e) refl

  abbrev unwrap : Reserved → Program Blob Bool
  unwrap r = ret r.reserved

  run-unwrap :
      (p : Program Blob Reserved) (s : State)
      → (run H p s).0 ≡ granted
      → (run H (p >>= unwrap) s).0 ≡ true
  unfolding run
  run-unwrap p s e =
      ap (λ (r : Bool × State). r.0) (run-bind H p unwrap s) ∙ ap (λ (r : Reserved). r.reserved) e

  -- What a worker does from its first read on, which found no key.
  abbrev late : Program Blob Bool
  late =
      reserve_loaded k (pos 1) now_ms max_age_ms (reserve_attempts 9 k (pos 1) now_ms max_age_ms)
        (inflight_of missing)
      >>= unwrap

  -- The empty list that the late worker stores is all that it finds at its next attempt.
  late_granted :
      (t : State) → ((run H late t).0 ≡ true) × (starts_at H k (run H late t).1 ≡ now_ms ∷ [])
  unfolding run
  late_granted t =
      let again = reserve_attempts 9 k (pos 1) now_ms max_age_ms in
      let body = reserve_loaded k (pos 1) now_ms max_age_ms again (inflight_of missing) in
      let u = (write t k empty_inflight 0).1 in
      let (n, stored, _) =
        write_stores t k empty_inflight 0 (write_unconditional t k empty_inflight) in
      let readable : read u k ≢ broken = λ e. cc (stored, e) in
      let (result, leaves, _) =
        reserve_attempts-Leaves H k (pos 1) now_ms max_age_ms u 7 readable in
      let wiped : starts_at H k u ≡ [] = ap (λ r. (inflight_of r).state.starts) stored in
      let same = run-reserve_absent H k (pos 1) now_ms max_age_ms t again in
      (
        run-unwrap body t
            (ap (λ (r : Reserved × State). r.0) same ∙ result ∙ verdict-granted _ wiped),
        ap (λ (r : Bool × State). starts_at H k r.1) (run-bind H body unwrap t)
            ∙ ap (λ (r : Reserved × State). starts_at H k r.1) same
            ∙ leaves
            ∙ left-one _ wiped,
      )

  first_granted :
      (s : State)
      → read s k ≡ missing
      → (run H (routine key (pos 1) (reserve now_ms max_age_ms)) s).0 ≡ true
  first_granted s absent =
      let (result, _, _) =
        run-reserve_inflight H key (pos 1) now_ms max_age_ms s (λ e. cc (absent, e)) in
      run-unwrap (reserve_inflight key (pos 1) now_ms max_age_ms) s
        (result ∙ verdict-granted _ (ap (λ r. (inflight_of r).state.starts) absent))

  -- A reservation on a key that exists reads and writes once; one on a missing key stores the empty
  -- list before.
  Succeeds-found :
      (t : State) (n : ℕ) (v : Blob) (c : ℕ)
      → read t k ≡ found v c
      → Succeeds H (reserve_attempts (suc n) k (pos 1) now_ms max_age_ms) t
  unfolding reserve_attempts reserve_loaded
  Succeeds-found t n v c stored =
      let live = prune_starts (decode_inflight v).starts now_ms max_age_ms in
      let w = inflight_doc (record { starts = live ++ now_ms ∷ [] }) in
      let present : (c == 0) ≡ false = not_zero c (read_issued t k v c stored).0 in
      (
        λ e. cc (stored, e),
        rw (stored, present)
            (elim (Bool-cases (is_full (pos 1) live)) [
              | inl full ↦ rw full tt
              | inr free ↦ let done = write_current t k w v c stored in rw free (done, rw (done) tt)
            ]),
      )

  Succeeds-absent :
      (t : State) (n : ℕ)
      → Succeeds H
          (reserve_loaded k
            (pos 1)
            now_ms
            max_age_ms
            (reserve_attempts (suc n) k (pos 1) now_ms max_age_ms)
            (inflight_of missing))
          t
  unfolding reserve_loaded
  Succeeds-absent t n =
      let done = write_unconditional t k empty_inflight in
      let (c, stored, _) = write_stores t k empty_inflight 0 done in
      (done, rw done (Succeeds-found (write t k empty_inflight 0).1 n empty_inflight c stored))

  late-Succeeds : (t : State) → Succeeds H late t
  late-Succeeds t = Succeeds-map H _ (λ (r : Reserved). r.reserved) t (Succeeds-absent t 8)

  first_Succeeds :
      (s : State)
      → read s k ≡ missing
      → Succeeds H (routine key (pos 1) (reserve now_ms max_age_ms)) s
  unfolding reserve_inflight reserve_attempts
  first_Succeeds s absent =
      Succeeds-map H (reserve_inflight key (pos 1) now_ms max_age_ms) (λ (r : Reserved). r.reserved)
        s (λ e. cc (absent, e), rw absent (Succeeds-absent s 8))

  -- On a target with a cap of one whose key does not exist, some order of the host calls of two
  -- workers, in which every read is answered and every write is stored, admits the requests of both
  -- and records one of them: the list under the key then holds a single entry.
  pub init_race_admits_both :
      (s : State)
      → read s k ≡ missing
      → (t : State) × Runs H s
          (map (routine key (pos 1)) (reserve now_ms max_age_ms ∷ reserve now_ms max_age_ms ∷ []))
          t
          (ret true ∷ ret true ∷ [])
        × (starts_at H k t ≡ now_ms ∷ [])
  unfolding reserve_inflight reserve_attempts
  init_race_admits_both s absent =
      let second = routine key (pos 1) (reserve now_ms max_age_ms) in
      let after_read : Reply Blob → Program Blob Bool = λ r.
        (reserve_loaded k (pos 1) now_ms max_age_ms (reserve_attempts 9 k (pos 1) now_ms max_age_ms)
            (inflight_of r)
          >>= unwrap) in
      let t = (run H second s).1 in
      let u = (run H late t).1 in
      let (granted_late, one_left) = late_granted t in
      let first_reads : Runs H s (second ∷ second ∷ []) s (late ∷ second ∷ []) = (
        next start (here (reads k after_read refl (ap after_read (sym absent)) refl)),
        (tt, λ e. cc (absent, e)),
      ) in
      let second_done : Runs H s (late ∷ second ∷ []) t (late ∷ ret true ∷ []) =
        subst (λ b. Runs H s (late ∷ second ∷ []) t (late ∷ ret b ∷ [])) (first_granted s absent)
          (Runs-behind H late (run-Runs H second [] s (first_Succeeds s absent))) in
      let first_done : Runs H t (late ∷ ret true ∷ []) u (ret true ∷ ret true ∷ []) =
        subst (λ b. Runs H t (late ∷ ret true ∷ []) u (ret b ∷ ret true ∷ [])) granted_late
          (run-Runs H late (ret true ∷ []) t (late-Succeeds t)) in
      (u, Runs-trans H first_reads (Runs-trans H second_done first_done), one_left)
