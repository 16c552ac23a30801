-- ===== src/Lb/Finisher/Choice.antt =====
-- From the walk to the decision: finalizeSelection at what Reserve answers.
use gpustack_higress_plugin.Common.{
  ℕ, suc, ◌+◌, ◌≤◌, ◌<◌, Bytes, false, ◌≡◌, ◌≢◌, ◌⊎◌, refl, sym, ap, ◌∙◌, inl, inr, Option, some,
  List, [], ◌∷◌, ◌++◌, eq64, ℤ, pos, arith, All, Bool-cases, length, get_elem?, get_elem?-lt,
}
use mathlib.Core.List.{map-append}
use gpustack_higress_plugin.Host.{
  Reply, Status, SharedData, Program, ret, get_shared, set_shared, ◌>>=◌, run,
}
use gpustack_higress_plugin.Wire.{Candidate, key}
use gpustack_higress_plugin.Lb.State.{
  Blob, Reserved, inflight_key, is_full, reserve_inflight, token_for_start,
}
use gpustack_higress_plugin.Lb.State.Run.{starts_at}
use gpustack_higress_plugin.Lb.Store.{
  ReserveTarget, Pick, reserve_exhausted, reserve_fail_open, reserve, reserve_from, reserve_verdict,
}
use gpustack_higress_plugin.Lb.Store.Walk.{IsReadable, IsFull, live_of, reserve_first_room}
use gpustack_higress_plugin.Lb.Finisher.{
  cap_rejected, panics, routed_to, target_of, targets_of, finalize_selection,
}

-- What a routine returns satisfies `P`, whatever the host answers to its calls.
abbrev pub Returns : {V A : Type 0} → (A → Type 0) → Program V A → Type 0
Returns P (ret a) = P a
Returns P (get_shared k f) = (r : Reply _) → Returns P (f r)
Returns P (set_shared k v c f) = (r : Status) → Returns P (f r)

Returns-bind :
    {V A B : Type 0} (P : B → Type 0) (p : Program V A) (f : A → Program V B)
    → ((a : A) → Returns P (f a))
    → Returns P (p >>= f)
Returns-bind P (ret a) f h = h a
Returns-bind P (get_shared k g) f h = λ r. Returns-bind P (g r) f h
Returns-bind P (set_shared k v c g) f h = λ r. Returns-bind P (g r) f h

Returns-map :
    {V A : Type 0} (P Q : A → Type 0) (p : Program V A)
    → ((a : A) → P a → Q a)
    → Returns P p
    → Returns Q p
Returns-map P Q (ret a) h r = h a r
Returns-map P Q (get_shared k g) h r = λ x. Returns-map P Q (g x) h (r x)
Returns-map P Q (set_shared k v c g) h r = λ x. Returns-map P Q (g x) h (r x)

-- One of the two constants, or a 1-based place among `n`.
abbrev IsPlace : ℕ → Pick → Type 0
IsPlace n p =
    (p.pick ≡ reserve_exhausted)
    ⊎ (p.pick ≡ reserve_fail_open)
    ⊎ ((i : ℕ) × (i < n) × (p.pick ≡ pos (suc i)))

reserve_verdict-IsPlace :
    (i n : ℕ) (now_ms : ℤ) (others : Program Blob Pick) (r : Reserved)
    → i < n
    → Returns (IsPlace n) others
    → Returns (IsPlace n) (reserve_verdict i now_ms others r)
unfolding reserve_verdict
reserve_verdict-IsPlace i n now_ms others r h rest = elim (Bool-cases r.ok) [
  | inl fine ↦ elim (Bool-cases r.reserved) [
    | inl granted ↦ rw (fine, granted) (inr (inr (i, h, refl)))
    | inr refused ↦ rw (fine, refused) rest
  ]
  | inr down ↦ rw down (inr (inl refl))
]

reserve_from-IsPlace :
    (i n : ℕ) (targets : List ReserveTarget) (now_ms max_age_ms : ℤ)
    → i + length targets ≤ n
    → Returns (IsPlace n) (reserve_from i targets now_ms max_age_ms)
unfolding reserve_from
reserve_from-IsPlace i n [] now_ms max_age_ms h = inl refl
reserve_from-IsPlace i n (t ∷ rest) now_ms max_age_ms h =
    Returns-bind (IsPlace n) (reserve_inflight t.ref.key t.max_run now_ms max_age_ms) _ (λ r.
      reserve_verdict-IsPlace i n now_ms _ r (omega (arith, h))
        (reserve_from-IsPlace (suc i) n rest now_ms max_age_ms (omega (arith, h))))

place_not_exhausted : (i : ℕ) → eq64 (pos (suc i)) reserve_exhausted ≡ false
place_not_exhausted i = ground arith

place_not_fail_open : (i : ℕ) → eq64 (pos (suc i)) reserve_fail_open ≡ false
place_not_fail_open i = ground arith

module _ {Float : Type 0} where
  routed-ne :
      (o : Option (Candidate Float)) (token : Bytes) (c : Candidate Float)
      → o ≡ some c
      → routed_to o token ≢ panics
  routed-ne o token c e h =
      let clash : routed_to (some c) token ≡ panics = ap (λ x. routed_to x token) (sym e) ∙ h in cc

  finalize_at :
      (ordered : List (Candidate Float)) (p : Pick) (i : ℕ)
      → p.pick ≡ pos (suc i)
      → finalize_selection ordered p ≡ routed_to (get_elem? ordered i) p.token
  unfolding finalize_selection
  finalize_at ordered p i e = rw e (rw (place_not_exhausted i, place_not_fail_open i) refl)

  finalize_in_range :
      (c : Candidate Float) (rest : List (Candidate Float)) (p : Pick)
      → IsPlace (length (c ∷ rest)) p
      → finalize_selection (c ∷ rest) p ≢ panics
  unfolding finalize_selection
  finalize_in_range c rest p (inl e) h =
      let rejected : finalize_selection (c ∷ rest) p ≡ cap_rejected = rw e refl in cc (rejected, h)
  finalize_in_range c rest p (inr (inl e)) h =
      let opened : finalize_selection (c ∷ rest) p ≡ routed_to (some c) [] = rw e refl in
      cc (opened, h)
  finalize_in_range c rest p (inr (inr (i, small, e))) h =
      let (d, there) = get_elem?-lt (c ∷ rest) i small in
      routed-ne (get_elem? (c ∷ rest) i) p.token d there (sym (finalize_at (c ∷ rest) p i e) ∙ h)

  length-targets_of : (l : List (Candidate Float)) → length (targets_of l) ≡ length l
  length-targets_of [] = refl
  length-targets_of (c ∷ l) = ap suc (length-targets_of l)

  -- Whatever the host answers to the calls of Reserve, finalizeSelection finds the candidate of its
  -- answer: no index is out of range.
  pub finalize_selection-in_range :
      (c : Candidate Float) (rest : List (Candidate Float)) (now_ms max_age_ms : ℤ)
      → Returns
          (λ p. finalize_selection (c ∷ rest) p ≢ panics)
          (reserve (targets_of (c ∷ rest)) now_ms max_age_ms)
  unfolding reserve
  finalize_selection-in_range c rest now_ms max_age_ms =
      Returns-map (IsPlace (length (c ∷ rest))) _ _ (finalize_in_range c rest) (
        reserve_from-IsPlace 0 (length (c ∷ rest)) (targets_of (c ∷ rest)) now_ms max_age_ms
          (omega (arith, length-targets_of (c ∷ rest))))

  get_elem?-after :
      (before rest : List (Candidate Float)) (c : Candidate Float)
      → get_elem? (before ++ c ∷ rest) (length before) ≡ some c
  get_elem?-after [] rest c = refl
  get_elem?-after (b ∷ before) rest c = get_elem?-after before rest c

  -- Where the first candidate of the order that is not full can be read, the request is routed to
  -- that candidate, and it is that candidate's in-flight list which gets the request's start.
  pub routed_where_reserved :
      (H : SharedData Blob) (now_ms max_age_ms : ℤ) (s : SharedData.State H)
      (before rest : List (Candidate Float)) (c : Candidate Float)
      → All (IsFull H now_ms max_age_ms s) (targets_of before)
      → IsReadable H now_ms max_age_ms s (target_of c)
      → is_full c.max_running_requests (live_of H now_ms max_age_ms s (target_of c)) ≡ false
      → (finalize_selection
            (before ++ c ∷ rest)
            (run H (reserve (targets_of (before ++ c ∷ rest)) now_ms max_age_ms) s).0
          ≡ routed_to (some c) (token_for_start now_ms))
        × (starts_at H
              (inflight_key (key c))
              (run H (reserve (targets_of (before ++ c ∷ rest)) now_ms max_age_ms) s).1
            ≡ live_of H now_ms max_age_ms s (target_of c) ++ now_ms ∷ [])
  unfolding target_of
  routed_where_reserved H now_ms max_age_ms s before rest c full readable room =
      let (result, left, _) =
        reserve_first_room H now_ms max_age_ms s (targets_of before) (targets_of rest) (target_of c)
          full readable room in
      let ordered = before ++ c ∷ rest in
      let token = token_for_start now_ms in
      let split : targets_of ordered ≡ targets_of before ++ target_of c ∷ targets_of rest =
        map-append target_of before (c ∷ rest) in
      let answer : (run H (reserve (targets_of ordered) now_ms max_age_ms) s).0
          ≡ record { pick = pos (suc (length before)); token = token } =
        ap (λ l. (run H (reserve l now_ms max_age_ms) s).0) split
        ∙ result
        ∙ ap (λ (n : ℕ). record { pick = pos (suc n); token = token }) (length-targets_of before) in
      (
        ap (finalize_selection ordered) answer
            ∙ finalize_at ordered _ (length before) refl
            ∙ ap (λ o. routed_to o token) (get_elem?-after before rest c),
        ap (λ l. starts_at H (inflight_key (key c)) (run H (reserve l now_ms max_age_ms) s).1) split
            ∙ left,
      )
