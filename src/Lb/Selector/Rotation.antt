-- ===== src/Lb/Selector/Rotation.antt =====
-- roundRobin over a whole turn of its cursor.
use gpustack_higress_plugin.Common.{
  ℕ, zero, suc, ◌+◌, ◌-◌, ◌%◌, ◌^◌, ◌≤◌, ◌<◌, false, ◌≡◌, refl, sym, ap, ◌∙◌, Option, some, List,
  [], ◌∷◌, ◌++◌, map, take, drop, get_elem?, arith, ◌==◌, length,
}
use native.Mathlib.Nat.{mod-eq_of_lt, suc-mod, mod-lt, mod-add-mod, mod_self}
use mathlib.Core.List.{map-append}
use gpustack_higress_plugin.Wire.{Candidate}
use gpustack_higress_plugin.Lb.Selector.{round_robin}

next_mod : (c n r : ℕ) → 0 < n → c % n ≡ r → suc r < n → suc c % n ≡ suc r
next_mod c n r h e small = suc-mod c n ∙ ap (λ x. suc x % n) e ∙ mod-eq_of_lt small

-- After the calls that are left in a turn, the cursor is at the start of the list again.
turn_mod : (c n : ℕ) → 0 < n → (c + (n - c % n)) % n ≡ 0
turn_mod c n h =
    sym (mod-add-mod c n (n - c % n)) ∙ ap (λ x. x % n) (omega (arith, mod-lt c h)) ∙ mod_self n

module _ {ℓ} {A : Type ℓ} where
  take_all : (xs : List A) → take (length xs) xs ≡ xs
  take_all [] = refl
  take_all (x ∷ xs) = ap (λ l. x ∷ l) (take_all xs)

  take-drop_all :
      (r : ℕ) (xs : List A) → r ≤ length xs → take (length xs - r) (drop r xs) ≡ drop r xs
  take-drop_all zero xs h = ap (λ n. take n xs) (omega arith) ∙ take_all xs
  take-drop_all (suc r) [] h = absurd (omega (arith, h))
  take-drop_all (suc r) (x ∷ xs) h =
      ap (λ n. take n (drop r xs)) (omega arith) ∙ take-drop_all r xs (omega (arith, h))

module _ {Float : Type 0} where
  -- The choices of `n` calls, one after the other.
  abbrev pub turns : ℕ → ℕ → List (Candidate Float) → List (Option (Candidate Float))
  turns zero rr_cursor candidates = []
  turns (suc n) rr_cursor candidates =
      let (choice, next) = round_robin rr_cursor candidates in choice ∷ turns n next candidates

  round_robin-step :
      (rr_cursor : ℕ) (candidates : List (Candidate Float))
      → 0 < length candidates
      → suc rr_cursor < 2 ^ 64
      → round_robin rr_cursor candidates
        ≡ (get_elem? candidates (rr_cursor % length candidates), suc rr_cursor)
  unfolding round_robin
  round_robin-step rr_cursor candidates h small =
      let some_there : (length candidates == 0) ≡ false = ground arith in
      rw (some_there, mod-eq_of_lt small) refl

  drop-step :
      (r n : ℕ) (xs : List (Candidate Float))
      → r < length xs
      → (x : Candidate Float) × (get_elem? xs r ≡ some x)
        × (take (suc n) (drop r xs) ≡ x ∷ take n (drop (suc r) xs))
  drop-step r n [] h = absurd (omega (arith, h))
  drop-step zero n (x ∷ xs) h = (x, refl, refl)
  drop-step (suc r) n (x ∷ xs) h = drop-step r n xs (omega (arith, h))

  -- Calls that do not pass the end of the list.
  turns-straight :
      (n rr_cursor r : ℕ) (candidates : List (Candidate Float))
      → rr_cursor % length candidates ≡ r
      → r + n ≤ length candidates
      → rr_cursor + n < 2 ^ 64
      → turns n rr_cursor candidates ≡ map some (take n (drop r candidates))
  turns-straight zero rr_cursor r candidates e fits small = refl
  turns-straight (suc zero) rr_cursor r candidates e fits small =
      let (x, at_r, rest) = drop-step r 0 candidates (omega arith) in
      rw (round_robin-step rr_cursor candidates (omega arith) (omega arith), e, at_r, rest) refl
  turns-straight (suc (suc n)) rr_cursor r candidates e fits small =
      let (x, at_r, rest) = drop-step r (suc n) candidates (omega arith) in
      rw (round_robin-step rr_cursor candidates (omega arith) (omega arith), e, at_r, rest)
        (ap (λ l. some x ∷ l)
          (turns-straight (suc n) (suc rr_cursor) (suc r) candidates
            (next_mod rr_cursor (length candidates) r (omega arith) e (omega arith)) (omega arith)
            (omega arith)))

  turns-add :
      (a b rr_cursor : ℕ) (candidates : List (Candidate Float))
      → 0 < length candidates
      → rr_cursor + a + b < 2 ^ 64
      → turns (a + b) rr_cursor candidates
        ≡ turns a rr_cursor candidates ++ turns b (rr_cursor + a) candidates
  turns-add zero b rr_cursor candidates h small =
      ap (λ n. turns n rr_cursor candidates) (omega arith)
      ∙ ap (λ n. turns b n candidates) (omega arith)
  turns-add (suc a) b rr_cursor candidates h small =
      let one_more : suc a + b ≡ suc (a + b) = omega arith in
      rw (one_more, round_robin-step rr_cursor candidates h (omega arith))
        (ap (λ l. get_elem? candidates (rr_cursor % length candidates) ∷ l)
          (turns-add a b (suc rr_cursor) candidates h (omega arith)
            ∙ ap (λ n. turns a (suc rr_cursor) candidates ++ turns b n candidates) (omega arith)))

  -- As many calls as there are candidates, from a cursor that does not wrap in them, choose each
  -- candidate once, in the order of the list from the cursor's place on and around.
  pub round_robin_even :
      (rr_cursor : ℕ) (candidates : List (Candidate Float))
      → 0 < length candidates
      → rr_cursor + length candidates < 2 ^ 64
      → turns (length candidates) rr_cursor candidates
        ≡ map some (
            drop (rr_cursor % length candidates) candidates
            ++ take (rr_cursor % length candidates) candidates)
  round_robin_even rr_cursor candidates h small =
      let n = length candidates in
      let r = rr_cursor % n in
      let inside : r < n = mod-lt rr_cursor h in
      ap (λ m. turns m rr_cursor candidates) (omega (arith, inside))
      ∙ turns-add (n - r) r rr_cursor candidates h (omega arith)
      ∙ ap (λ l. l ++ turns r (rr_cursor + (n - r)) candidates)
          (turns-straight (n - r) rr_cursor r candidates refl (omega arith) (omega arith)
            ∙ ap (map some) (take-drop_all r candidates (omega arith)))
      ∙ ap (λ l. map some (drop r candidates) ++ l)
          (turns-straight r (rr_cursor + (n - r)) 0 candidates (turn_mod rr_cursor n h)
            (omega arith) (omega arith))
      ∙ sym (map-append some (drop r candidates) (take r candidates))
