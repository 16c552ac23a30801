-- ===== src/Lb/Selector/Weighted.antt =====
-- selectWeighted against intervals: the candidate `c` owns the points from the sum of the weights
-- before it up to that sum plus its own weight.
use gpustack_higress_plugin.Common.{
  ℕ, ◌+◌, ◌-◌, ◌%◌, ◌^◌, ◌≤◌, ◌<◌, Bytes, true, false, ◌≡◌, ◌⊎◌, refl, sym, ap, subst, ◌∙◌, inl,
  inr, none, some, List, [], ◌∷◌, ◌++◌, ℤ, pos, negsuc, pos_part, ltb, lt64, le64, sub64, IsInt64,
  ◌-ℤ◌, add64_of_sum, sub64_of_IsInt64, to_uint64, to_int64, arith, All, Bool-cases, if◌then◌else◌,
  length, get_elem?,
}
use native.Mathlib.Nat.{mod-lt}
use gpustack_higress_plugin.Wire.{Candidate}
use gpustack_higress_plugin.Lb.Selector.{
  weight_of, hash64, max_int64, sum_weights, pick_at, select_at, select_weighted, uniform_pick,
  or_last,
}

room_iff :
    (a b : ℕ)
    → a < 2 ^ 63
    → b < 2 ^ 63
    → lt64 (sub64 max_int64 (pos b)) (pos a) ≡ (if ltb (a + b) (2 ^ 63) then false else true)
room_iff a b ha hb =
    rw (sub64_of_IsInt64 max_int64 (pos b) (unfold ◌-ℤ◌ in (ground arith)))
      (unfold ◌-ℤ◌ in (ground arith))

-- A candidate owns no point and is passed over, or its weight is its share.
weight-cases :
    (w : ℤ)
    → IsInt64 w
    → ((le64 w (pos 0) ≡ true) × (pos_part w ≡ 0))
      ⊎ ((le64 w (pos 0) ≡ false)
          × (w ≡ pos (pos_part w))
          × (0 < pos_part w)
          × (pos_part w < 2 ^ 63))
weight-cases (pos n) h = elim (Bool-cases (le64 (pos n) (pos 0))) [
  | inl e ↦ inl (e, ground arith)
  | inr e ↦ inr (e, refl, ground arith, h.0)
]
weight-cases (negsuc n) h = inl (ground arith, refl)

positive_kept : (n : ℕ) → 0 < n → le64 (pos n) (pos 0) ≡ false
positive_kept n h = ground arith

-- The point of a request among `n`.
abbrev pub point_of : Bytes → ℕ → ℕ
point_of req_id n = hash64 req_id % n

-- The conversions around the modulus lose nothing.
point_lem : (h n : ℕ) → 0 < n → n < 2 ^ 63 → to_int64 (h % to_uint64 (pos n)) ≡ pos (h % n)
unfolding to_uint64 to_int64
point_lem h n positive small =
    let same : n % 2 ^ 64 ≡ n = ground arith in rw same (ground (arith, mod-lt h positive))

module _ {Float : Type 0} where
  -- The points that a candidate owns: its weight, or none without a positive one.
  abbrev pub share : Candidate Float → ℕ
  share c = pos_part (weight_of c)

  abbrev pub total_share : List (Candidate Float) → ℕ
  total_share [] = 0
  total_share (c ∷ rest) = share c + total_share rest

  abbrev pub IsWeight : Candidate Float → Type 0
  IsWeight c = IsInt64 (weight_of c)

  sum_weights-step :
      (a n : ℕ) (c : Candidate Float) (rest : List (Candidate Float))
      → weight_of c ≡ pos n
      → 0 < n
      → n < 2 ^ 63
      → a < 2 ^ 63
      → sum_weights (pos a) (c ∷ rest)
        ≡ (if ltb (a + n) (2 ^ 63) then sum_weights (pos (a + n)) rest else none)
  unfolding sum_weights
  sum_weights-step a n c rest e positive hn ha = elim (Bool-cases (ltb (a + n) (2 ^ 63))) [
    | inl fits ↦
        rw (e, positive_kept n positive, room_iff a n ha hn, fits, add64_of_sum a n (ground arith))
          refl
    | inr over ↦ rw (e, positive_kept n positive, room_iff a n ha hn, over) refl
  ]

  pick_at-step :
      (p a n : ℕ) (c : Candidate Float) (rest : List (Candidate Float))
      → weight_of c ≡ pos n
      → 0 < n
      → a + n < 2 ^ 63
      → pick_at (pos p) (pos a) (c ∷ rest)
        ≡ (if ltb p (a + n) then some c else pick_at (pos p) (pos (a + n)) rest)
  unfolding pick_at
  pick_at-step p a n c rest e positive small =
      rw (e, positive_kept n positive, add64_of_sum a n small) (ground arith)

  sum_weights_lem :
      (a : ℕ) (candidates : List (Candidate Float))
      → a < 2 ^ 63
      → All IsWeight candidates
      → sum_weights (pos a) candidates ≡ (
          if ltb (a + total_share candidates) (2 ^ 63)
          then some (pos (a + total_share candidates))
          else none)
  unfolding sum_weights
  sum_weights_lem a [] h hw = ground arith
  sum_weights_lem a (c ∷ rest) h (hc, hw) = elim (weight-cases (weight_of c) hc) [
    | inl (skip, e) ↦ rw skip (
        sum_weights_lem a rest h hw
        ∙ ap (λ n. if ltb n (2 ^ 63) then some (pos n) else none) (omega (arith, e)))
    | inr (kept, e, positive, small) ↦
        sum_weights-step a (share c) c rest e positive small h
        ∙ (ground (arith, sum_weights_lem (a + share c) rest _ hw))
  ]

  pick_at_lem :
      (p a : ℕ) (before rest : List (Candidate Float)) (c : Candidate Float)
      → All IsWeight (before ++ c ∷ rest)
      → a + total_share before ≤ p
      → p < a + total_share before + share c
      → a + total_share before + share c < 2 ^ 63
      → pick_at (pos p) (pos a) (before ++ c ∷ rest) ≡ some c
  unfolding pick_at
  pick_at_lem p a [] rest c (hc, hw) low high small = elim (weight-cases (weight_of c) hc) [
    | inl (skip, e) ↦ absurd (omega (arith, e))
    | inr (kept, e, positive, _) ↦
        pick_at-step p a (share c) c rest e positive (omega arith) ∙ (rw (inside))
  ]
    where
      inside : ltb p (a + share c) ≡ true
      inside = ground arith
  pick_at_lem p a (b ∷ before) rest c (hb, hw) low high small =
      elim (weight-cases (weight_of b) hb) [
        | inl (skip, e) ↦ rw skip (
            pick_at_lem p a before rest c hw (omega (arith, e)) (omega (arith, e))
              (omega (arith, e)))
        | inr (kept, e, positive, _) ↦
            pick_at-step p a (share b) b (before ++ c ∷ rest) e positive (omega arith)
            ∙ (rw beyond)
            ∙ pick_at_lem p (a + share b) before rest c hw (omega arith) (omega arith) (omega arith)
      ]
    where
      beyond : ltb p (a + share b) ≡ false
      beyond = ground arith

  -- Every point below the sum is owned by some candidate.
  owner :
      (p : ℕ) (candidates : List (Candidate Float))
      → p < total_share candidates
      → (before : List (Candidate Float)) × (c : Candidate Float) × (rest : List (Candidate Float))
        × (candidates ≡ before ++ c ∷ rest)
        × (total_share before ≤ p)
        × (p < total_share before + share c)
  owner p [] h = absurd (omega (arith, h))
  owner p (c ∷ rest) h = elim (Bool-cases (ltb p (share c))) [
    | inl inside ↦ ([], c, rest, refl, omega arith, ground arith)
    | inr beyond ↦
        let (before, d, after, e, low, high) = owner (p - share c) rest (ground arith) in
        (c ∷ before, d, after, ap (λ l. c ∷ l) e, ground arith, ground arith)
  ]

  total_share-append :
      (before rest : List (Candidate Float))
      → total_share (before ++ rest) ≡ total_share before + total_share rest
  total_share-append [] rest = omega arith
  total_share-append (c ∷ before) rest = omega (arith, total_share-append before rest)

  select_weighted-sum :
      (before rest : List (Candidate Float)) (c : Candidate Float) (req_id : Bytes)
      → select_weighted (before ++ c ∷ rest) req_id
        ≡ select_at (before ++ c ∷ rest) req_id (sum_weights (pos 0) (before ++ c ∷ rest))
  unfolding select_weighted
  select_weighted-sum [] rest c req_id = refl
  select_weighted-sum (b ∷ before) rest c req_id = refl

  select_at-point :
      (candidates : List (Candidate Float)) (req_id : Bytes) (n : ℕ)
      → 0 < n
      → n < 2 ^ 63
      → select_at candidates req_id (some (pos n))
        ≡ or_last candidates (pick_at (pos (point_of req_id n)) (pos 0) candidates)
  unfolding select_at
  select_at-point candidates req_id n positive small =
      rw (positive_kept n positive, point_lem (hash64 req_id) n positive small) refl

  -- Where the weights are int64 values whose positive ones sum to n with 0 < n < 2^63, the candidate
  -- whose interval holds the request's hash modulo n is chosen: the intervals lie one after the
  -- other in the order of the candidates, each as long as its candidate's weight.
  pub select_weighted-interval :
      (before rest : List (Candidate Float)) (c : Candidate Float) (req_id : Bytes)
      → All IsWeight (before ++ c ∷ rest)
      → total_share (before ++ c ∷ rest) < 2 ^ 63
      → total_share before ≤ point_of req_id (total_share (before ++ c ∷ rest))
      → point_of req_id (total_share (before ++ c ∷ rest)) < total_share before + share c
      → select_weighted (before ++ c ∷ rest) req_id ≡ some c
  select_weighted-interval before rest c req_id hw small low high =
      let all = before ++ c ∷ rest in
      let n = total_share all in
      let inside : total_share before + share c ≤ n =
        omega (arith, total_share-append before (c ∷ rest)) in
      let summed : sum_weights (pos 0) all ≡ some (pos n) =
        sum_weights_lem 0 all (omega arith) hw ∙ (ground arith) in
      select_weighted-sum before rest c req_id
      ∙ ap (select_at all req_id) summed
      ∙ select_at-point all req_id n (omega arith) small
      ∙ ap (or_last all) (
          pick_at_lem (point_of req_id n) 0 before rest c hw (omega (arith, low))
            (omega (arith, high)) (omega arith))

  -- Where the weights are int64 values whose positive ones sum to n with 0 < n < 2^63, a candidate
  -- of the set is chosen, and its weight is positive.
  pub select_weighted-positive :
      (candidates : List (Candidate Float)) (req_id : Bytes)
      → All IsWeight candidates
      → 0 < total_share candidates
      → total_share candidates < 2 ^ 63
      → (before : List (Candidate Float)) × (c : Candidate Float) × (rest : List (Candidate Float))
        × (candidates ≡ before ++ c ∷ rest)
        × (select_weighted candidates req_id ≡ some c)
        × (0 < share c)
  select_weighted-positive candidates req_id hw positive small =
      let (before, c, rest, e, low, high) =
        owner (point_of req_id (total_share candidates)) candidates
          (mod-lt (hash64 req_id) positive) in
      let interval = λ (l : List (Candidate Float)).
        (All IsWeight l
          → total_share l < 2 ^ 63
          → total_share before ≤ point_of req_id (total_share l)
          → point_of req_id (total_share l) < total_share before + share c
          → select_weighted l req_id ≡ some c) in
      let chosen : interval candidates =
        subst interval (sym e) (select_weighted-interval before rest c req_id) in
      (before, c, rest, e, chosen hw small low high, omega (arith, low, high))

  select_at-uniform :
      (candidates : List (Candidate Float)) (req_id : Bytes)
      → (select_at candidates req_id none ≡ uniform_pick candidates req_id)
        × (select_at candidates req_id (some (pos 0)) ≡ uniform_pick candidates req_id)
  unfolding select_at
  select_at-uniform candidates req_id = (refl, refl)

  -- Where the positive weights sum to 0 or to 2^63 or more, the choice is the uniform one, by the
  -- request's hash modulo the number of candidates.
  pub select_weighted-uniform :
      (c : Candidate Float) (rest : List (Candidate Float)) (req_id : Bytes)
      → All IsWeight (c ∷ rest)
      → (total_share (c ∷ rest) ≡ 0) ⊎ (2 ^ 63 ≤ total_share (c ∷ rest))
      → select_weighted (c ∷ rest) req_id
        ≡ get_elem? (c ∷ rest) (point_of req_id (length (c ∷ rest)))
  unfolding uniform_pick
  select_weighted-uniform c rest req_id hw (inl zero_sum) =
      select_weighted-sum [] rest c req_id
      ∙ ap (select_at (c ∷ rest) req_id)
          (sum_weights_lem 0 (c ∷ rest) (omega arith) hw ∙ (rw zero_sum refl))
      ∙ (select_at-uniform (c ∷ rest) req_id).1
  select_weighted-uniform c rest req_id hw (inr large) =
      select_weighted-sum [] rest c req_id
      ∙ ap (select_at (c ∷ rest) req_id)
          (sum_weights_lem 0 (c ∷ rest) (omega arith) hw ∙ (ground (arith, large)))
      ∙ (select_at-uniform (c ∷ rest) req_id).0
