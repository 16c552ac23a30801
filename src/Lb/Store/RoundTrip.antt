-- ===== src/Lb/Store/RoundTrip.antt =====
-- A reservation and the release at the end of its request.
use gpustack_higress_plugin.Common.{
  ℕ, Bytes, true, false, ◌≡◌, ◌≢◌, refl, sym, ap, ◌∙◌, inl, inr, none, some, List, [], ◌∷◌, ◌++◌, ℤ,
  pos, eq64, arith, All, length, keep, Bool-cases, ==_iff, eq_of_parts, IsInt64, parse_int,
  parse_int-format_int, Bool, get_elem?, ◌==◌,
}
use gpustack_higress_plugin.Host.{broken, SharedData, run}
use gpustack_higress_plugin.Host.Run.{run-bind}
use gpustack_higress_plugin.Host.Confined.{Confined, run-Confined}
use gpustack_higress_plugin.Lb.State.{
  Blob, inflight_key, health_key, prune_starts, is_live, is_full, remove_first, remove_inflight,
  token_for_start, record_success, record_failure, inflight_of,
}
use gpustack_higress_plugin.Lb.State.Run.{starts_at}
use gpustack_higress_plugin.Lb.State.Removal.{run-remove_inflight}
use gpustack_higress_plugin.Lb.State.Health.{success_attempts-Confined, failure_attempts-Confined}
use gpustack_higress_plugin.Lb.Store.{
  ReserveTarget, DoneRecord, Outcome, ignored, success, failure, Pick, reserve, release,
  release_parsed, settle, done,
}
use gpustack_higress_plugin.Lb.Store.Walk.{IsReadable, IsFull, live_of, reserve_first_room}

-- How often a start stands in a list.
abbrev pub occurrences : ℤ → List ℤ → ℕ
occurrences ts l = length (keep (eq64 ts) l)

eq64_refl : (a : ℤ) → eq64 a a ≡ true
eq64_refl a = ground arith

occurrences-snoc : (ts x : ℤ) (l : List ℤ) → occurrences ts (l ++ x ∷ []) ≡ occurrences ts (x ∷ l)
occurrences-snoc ts x [] = refl
occurrences-snoc ts x (y ∷ l) = ground (arith, occurrences-snoc ts x l)

occurrences-cons :
    (ts y : ℤ) (m n : List ℤ)
    → occurrences ts m ≡ occurrences ts n
    → occurrences ts (y ∷ m) ≡ occurrences ts (y ∷ n)
occurrences-cons ts y m n h = ground (arith, h)

-- The entry that was added last is removed again, up to the order of equal starts.
occurrences-remove_first :
    (ts x : ℤ) (l : List ℤ) → occurrences ts (remove_first x (l ++ x ∷ [])).0 ≡ occurrences ts l
unfolding remove_first
occurrences-remove_first ts x [] = rw (eq64_refl x) refl
occurrences-remove_first ts x (y ∷ l) = elim (Bool-cases (eq64 y x)) [
  | inl e ↦
      let same : y ≡ x = eq_of_parts y x ((==_iff _ _).0 e) in
      rw e (occurrences-snoc ts x l ∙ ap (λ z. occurrences ts (z ∷ l)) (sym same))
  | inr e ↦ rw e (occurrences-cons ts y _ l (occurrences-remove_first ts x l))
]

keep_fresh :
    (now_ms max_age_ms : ℤ) (l : List ℤ)
    → All (λ ts. is_live now_ms max_age_ms ts ≡ true) l
    → prune_starts l now_ms max_age_ms ≡ l
unfolding prune_starts
keep_fresh now_ms max_age_ms [] h = refl
keep_fresh now_ms max_age_ms (ts ∷ l) (live, h) =
    rw live (ap (λ r. ts ∷ r) (keep_fresh now_ms max_age_ms l h))

-- An outcome writes to the health key only.
settle-Confined :
    (rec : DoneRecord) (o : Outcome) → Confined (health_key rec.cluster) (settle o rec)
unfolding settle record_success record_failure
settle-Confined rec ignored = tt
settle-Confined rec success = success_attempts-Confined (health_key rec.cluster) 10
settle-Confined rec failure =
    failure_attempts-Confined (health_key rec.cluster) rec.threshold rec.cooldown_ms rec.ramp_ms
      rec.now_ms 10

-- The two kinds of keys differ in their 13th byte.
is_inflight : Bytes → Bool
is_inflight s = elim (get_elem? s 12) [ none ↦ false | some b ↦ b == 105 ]

keys_differ : (key cluster : Bytes) → inflight_key key ≢ health_key cluster
unfolding is_inflight
keys_differ key cluster e = let differ : true ≡ false = ap is_inflight e in cc

module _ (H : SharedData Blob) where
  open H use {State, read}

  run-release :
      (rec : DoneRecord) (start_ms : ℤ) (s : State)
      → parse_int rec.token ≡ some start_ms
      → run H (release rec) s
        ≡ run H (remove_inflight rec.inflight_key start_ms rec.now_ms rec.max_age_ms) s
  unfolding release
  run-release rec start_ms s e = ap (λ o. run H (release_parsed rec o) s) e

  -- What `done` leaves is what its removal leaves, on all keys but the health key.
  run-done :
      (rec : DoneRecord) (start_ms : ℤ) (s : State) (j : Bytes)
      → parse_int rec.token ≡ some start_ms
      → j ≢ health_key rec.cluster
      → read (run H (done rec) s).1 j
        ≡ read (run H (remove_inflight rec.inflight_key start_ms rec.now_ms rec.max_age_ms) s).1 j
  unfolding done
  run-done rec start_ms s j e other =
      let freed = (run H (release rec) s).1 in
      ap (λ (r : Unit {0} × State). read r.1 j)
        (run-bind H (release rec) (λ _. settle rec.outcome rec) s)
      ∙ run-Confined (health_key rec.cluster) H (settle rec.outcome rec) freed j
          (settle-Confined rec rec.outcome) other
      ∙ ap (λ (r : Unit {0} × State). read r.1 j) (run-release rec start_ms s e)

  readable_of_starts :
      (k : Bytes) (s : State) (l : List ℤ) (x : ℤ)
      → starts_at H k s ≡ l ++ x ∷ []
      → read s k ≢ broken
  readable_of_starts k s l x e none_there =
      let empty : [] ≡ l ++ x ∷ [] = sym (ap (λ r. (inflight_of r).state.starts) none_there) ∙ e in
      nonempty l empty
    where
      nonempty : (m : List ℤ) → [] ≢ m ++ x ∷ []
      nonempty [] h = cc
      nonempty (y ∷ m) h = cc

  -- A request that reserves on the first target that is not full, and ends while none of that
  -- target's entries has aged out, leaves the target with its live entries from before, up to the
  -- order of equal starts, whatever its outcome. The start is an int64 value other than 0, and no
  -- other worker's calls come in between.
  pub done_undoes_reserve :
      (now_ms max_age_ms : ℤ) (s : State) (before rest : List ReserveTarget) (t : ReserveTarget)
      (rec : DoneRecord)
      → All (IsFull H now_ms max_age_ms s) before
      → IsReadable H now_ms max_age_ms s t
      → is_full t.max_run (live_of H now_ms max_age_ms s t) ≡ false
      → IsInt64 now_ms
      → eq64 now_ms (pos 0) ≡ false
      → rec.inflight_key ≡ t.ref.key
      → rec.token ≡ (run H (reserve (before ++ t ∷ rest) now_ms max_age_ms) s).0.token
      → All
          (λ ts. is_live rec.now_ms rec.max_age_ms ts ≡ true)
          (live_of H now_ms max_age_ms s t ++ now_ms ∷ [])
      → (ts : ℤ)
      → occurrences ts (
          starts_at H
            (inflight_key t.ref.key)
            (run H (done rec) (run H (reserve (before ++ t ∷ rest) now_ms max_age_ms) s).1).1)
        ≡ occurrences ts (live_of H now_ms max_age_ms s t)
  unfolding token_for_start
  done_undoes_reserve now_ms max_age_ms s before rest t rec full readable room small some_start same
        token fresh ts =
      let slot = inflight_key t.ref.key in
      let live = live_of H now_ms max_age_ms s t in
      let reserved = run H (reserve (before ++ t ∷ rest) now_ms max_age_ms) s in
      let (result, left, _) =
        reserve_first_room H now_ms max_age_ms s before rest t full readable room in
      let parsed : parse_int rec.token ≡ some now_ms =
        ap parse_int (token ∙ ap (λ (p : Pick). p.token) result)
        ∙ parse_int-format_int now_ms small in
      let removal = run H (remove_inflight t.ref.key now_ms rec.now_ms rec.max_age_ms) reserved.1 in
      let kept : starts_at H slot removal.1
          ≡ (remove_first now_ms
              (prune_starts (starts_at H slot reserved.1) rec.now_ms rec.max_age_ms)).0 =
        (run-remove_inflight H t.ref.key now_ms rec.now_ms rec.max_age_ms reserved.1
          (readable_of_starts slot reserved.1 live now_ms left) some_start).0 in
      let ended : starts_at H slot (run H (done rec) reserved.1).1 ≡ starts_at H slot removal.1 =
        ap (λ r. (inflight_of r).state.starts)
          (run-done rec now_ms reserved.1 slot parsed (keys_differ t.ref.key rec.cluster)
            ∙ ap
                (λ k.
                  read (run H (remove_inflight k now_ms rec.now_ms rec.max_age_ms) reserved.1).1
                    slot)
                same) in
      ap (occurrences ts) (
        ended
        ∙ kept
        ∙ ap (λ l. (remove_first now_ms (prune_starts l rec.now_ms rec.max_age_ms)).0) left
        ∙ ap (λ l. (remove_first now_ms l).0) (keep_fresh rec.now_ms rec.max_age_ms _ fresh))
      ∙ occurrences-remove_first ts now_ms live
