-- ===== src/Lb/Selector/Scored/Maximum.antt =====
-- What bestTotal chooses.
use gpustack_higress_plugin.Common.{
  ℕ, suc, ◌≡◌, ◌⊎◌, refl, sym, ap, inl, inr, Bool, true, false, Option, some, List, [], ◌∷◌, All,
  length, get_elem?, Bool-cases, arith,
}
use gpustack_higress_plugin.Wire.{Candidate}
use gpustack_higress_plugin.Lb.Context.{FloatOps}
use gpustack_higress_plugin.Lb.Selector.Scored.{best_from, best_total}

-- The order of the numbers among the floats: NaN is none.
pub record FloatOrder {Float : Type 0} (F : FloatOps Float) (eq_float : Float → Float → Bool)
    (is_number : Float → Bool) : Type 0 where
  pub asym : (a b : Float) → F.gt_float a b ≡ true → F.gt_float b a ≡ false
  pub not_above :
      (a b c : Float)
      → is_number b ≡ true
      → F.gt_float a b ≡ false
      → F.gt_float b c ≡ false
      → F.gt_float a c ≡ false
  pub equal_above : (a b : Float) → eq_float a b ≡ true → F.gt_float b a ≡ false
  pub not_above_self : (a : Float) → F.gt_float a a ≡ false

module _ {Float : Type 0} (F : FloatOps Float) (eq_float : Float → Float → Bool)
    (draw : ℕ → ℕ → Bool) (is_number : Float → Bool) (O : FloatOrder F eq_float is_number) where
  open F use {gt_float}

  -- c stands at the place of the total t.
  abbrev pub StandsAt : Candidate Float → Float → List (Candidate Float) → List Float → Type 0
  StandsAt c t cands totals = (i : ℕ) × (get_elem? cands i ≡ some c) × (get_elem? totals i ≡ some t)

  -- What the loop ends with, from a held candidate c0 of the total t0.
  record Found (o : Option (Candidate Float)) (c0 : Candidate Float) (t0 score : Float)
      (cands : List (Candidate Float)) (totals : List Float) : Type 0 where
    c : Candidate Float
    t : Float
    is_best : o ≡ some c
    at_least : gt_float score t ≡ false
    none_above : All (λ u. gt_float u t ≡ false) totals
    place : ((c ≡ c0) × (t ≡ t0)) ⊎ StandsAt c t cands totals

  behind_head :
      {c0 c1 c : Candidate Float} {t0 t1 t : Float} (cands : List (Candidate Float))
      (totals : List Float)
      → ((c ≡ c1) × (t ≡ t1)) ⊎ StandsAt c t cands totals
      → ((c ≡ c0) × (t ≡ t0)) ⊎ StandsAt c t (c1 ∷ cands) (t1 ∷ totals)
  behind_head cands totals (inl (e, f)) =
      inr (0, ap (λ x. some x) (sym e), ap (λ x. some x) (sym f))
  behind_head cands totals (inr (i, e, f)) = inr (suc i, e, f)

  still_held :
      {c0 c1 c : Candidate Float} {t0 t1 t : Float} (cands : List (Candidate Float))
      (totals : List Float)
      → ((c ≡ c0) × (t ≡ t0)) ⊎ StandsAt c t cands totals
      → ((c ≡ c0) × (t ≡ t0)) ⊎ StandsAt c t (c1 ∷ cands) (t1 ∷ totals)
  still_held cands totals (inl same) = inl same
  still_held cands totals (inr (i, e, f)) = inr (suc i, e, f)

  best_from-Found :
      (i : ℕ) (c0 : Candidate Float) (t0 score : Float) (ties : ℕ) (cands : List (Candidate Float))
      (totals : List Float)
      → length cands ≡ length totals
      → is_number score ≡ true
      → gt_float score t0 ≡ false
      → All (λ u. is_number u ≡ true) totals
      → Found
          (best_from F eq_float draw i
            (record { best = some c0; best_score = score; ties = ties })
            cands
            totals).best
          c0
          t0
          score
          cands
          totals
  best_from-Found i c0 t0 score ties [] [] same num above nums = record {
    c = c0;
    t = t0;
    is_best = refl;
    at_least = above;
    none_above = tt;
    place = inl (refl, refl);
  }
  best_from-Found i c0 t0 score ties [] (t ∷ totals) same num above nums =
      absurd (omega (arith, same))
  best_from-Found i c0 t0 score ties (c ∷ cands) [] same num above nums =
      absurd (omega (arith, same))
  best_from-Found i c0 t0 score ties (c1 ∷ cands) (t1 ∷ totals) same num above nums =
      let fewer : length cands ≡ length totals = omega (arith, same) in
      elim (Bool-cases (gt_float t1 score)) [
        | inl higher ↦
            let r =
              best_from-Found (suc i) c1 t1 t1 1 cands totals fewer (nums.0) (O.not_above_self t1)
                (nums.1) in
            rw (higher, best_from)
              (record {
                c = r.c;
                t = r.t;
                is_best = r.is_best;
                at_least = O.not_above score t1 r.t (nums.0) (O.asym t1 score higher) r.at_least;
                none_above = (r.at_least, r.none_above);
                place = behind_head cands totals r.place;
              })
        | inr lower ↦ elim (Bool-cases (eq_float t1 score)) [
          | inl tied ↦ elim (Bool-cases (draw i (suc ties))) [
            | inl drawn ↦
                let r =
                  best_from-Found (suc i) c1 t1 score (suc ties) cands totals fewer num
                    (O.equal_above t1 score tied) (nums.1) in
                rw (lower, tied, drawn, best_from)
                  (record {
                    c = r.c;
                    t = r.t;
                    is_best = r.is_best;
                    at_least = r.at_least;
                    none_above = (O.not_above t1 score r.t num lower r.at_least, r.none_above);
                    place = behind_head cands totals r.place;
                  })
            | inr kept ↦
                let r =
                  best_from-Found (suc i) c0 t0 score (suc ties) cands totals fewer num above
                    (nums.1) in
                rw (lower, tied, kept, best_from)
                  (record {
                    c = r.c;
                    t = r.t;
                    is_best = r.is_best;
                    at_least = r.at_least;
                    none_above = (O.not_above t1 score r.t num lower r.at_least, r.none_above);
                    place = still_held cands totals r.place;
                  })
          ]
          | inr below ↦
              let r =
                best_from-Found (suc i) c0 t0 score ties cands totals fewer num above (nums.1) in
              rw (lower, below, best_from)
                (record {
                  c = r.c;
                  t = r.t;
                  is_best = r.is_best;
                  at_least = r.at_least;
                  none_above = (O.not_above t1 score r.t num lower r.at_least, r.none_above);
                  place = still_held cands totals r.place;
                })
        ]
      ]

  -- Where there is a candidate and every total is a number, bestTotal chooses one, whatever the random
  -- draws, and no total is above the total at its place.
  pub best_total-maximal :
      (first : Candidate Float) (cands : List (Candidate Float)) (totals : List Float)
      → length (first ∷ cands) ≡ length totals
      → All (λ u. is_number u ≡ true) totals
      → (c : Candidate Float) × (t : Float) × (best_total F eq_float draw (first ∷ cands) totals
          ≡ some c)
        × StandsAt c t (first ∷ cands) totals
        × All (λ u. gt_float u t ≡ false) totals
  unfolding best_total
  best_total-maximal first cands [] same nums = absurd (omega (arith, same))
  best_total-maximal first cands (t0 ∷ totals) same nums =
      let r =
        best_from-Found 1 first t0 t0 1 cands totals (omega (arith, same)) (nums.0)
          (O.not_above_self t0) (nums.1) in
      (
        r.c,
        r.t,
        r.is_best,
        elim (behind_head {c0 = first} {t0 = t0} cands totals r.place) [
          | inl (e, f) ↦ (0, ap (λ x. some x) (sym e), ap (λ x. some x) (sym f))
          | inr place ↦ place
        ],
        (r.at_least, r.none_above),
      )
