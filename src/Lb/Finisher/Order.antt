-- ===== src/Lb/Finisher/Order.antt =====
-- reserveOrder tries every budget once.
use gpustack_higress_plugin.Common.{
  ℕ, suc, Bytes, Bool, true, false, ◌≡◌, refl, sym, ap, subst, ◌∙◌, inl, inr, Option, none, some,
  List, [], ◌∷◌, any, map, eqb, eqb_iff, eqb_refl, arith, Bool-cases, length, get_elem?, ◌==◌,
  if◌then◌else◌, ◌||◌,
}
use gpustack_higress_plugin.Wire.{Candidate, key}
use gpustack_higress_plugin.Lb.Selector.{is_weighted}
use gpustack_higress_plugin.Lb.Finisher.{
  insert_stable, sort_stable, with_some, candidates_at, indices_from, order_from, walk_indices,
  reserve_order, higher_total,
}

-- No key occurs twice.
abbrev pub IsDistinct : List Bytes → Type 0
IsDistinct [] = Unit
IsDistinct (k ∷ ks) = (any (eqb k) ks ≡ false) × IsDistinct ks

abbrev pub occurs : Bytes → List Bytes → Bool
occurs k ks = any (eqb k) ks

eq_of_eqb : (a b : Bytes) → eqb a b ≡ true → a ≡ b
eq_of_eqb a b e = (eqb_iff a b).0 e

module _ {Float : Type 0} where
  abbrev order_keys : List Bytes → List (Candidate Float) → List Bytes
  order_keys seen l = map key (order_from seen l)

  order_from-unseen :
      (k : Bytes) (seen : List Bytes) (l : List (Candidate Float))
      → occurs k seen ≡ true
      → occurs k (order_keys seen l) ≡ false
  unfolding order_from
  order_from-unseen k seen [] h = refl
  order_from-unseen k seen (c ∷ rest) h = elim (Bool-cases (occurs (key c) seen)) [
    | inl e ↦ rw e (order_from-unseen k seen rest h)
    | inr e ↦ rw (e, other e) (order_from-unseen k (key c ∷ seen) rest (rw (other e, h) refl))
  ]
    where
      other : occurs (key c) seen ≡ false → eqb k (key c) ≡ false
      other e = elim (Bool-cases (eqb k (key c))) [
        | inl same ↦ absurd (clash (sym (seen_too same) ∙ e))
        | inr differ ↦ differ
      ]
        where
          seen_too : eqb k (key c) ≡ true → occurs (key c) seen ≡ true
          seen_too same = subst (λ x. occurs x seen ≡ true) (eq_of_eqb k (key c) same) h

          clash : true ≡ false → ⊥
          clash both = cc

  order_from-IsDistinct :
      (seen : List Bytes) (l : List (Candidate Float)) → IsDistinct (order_keys seen l)
  unfolding order_from
  order_from-IsDistinct seen [] = tt
  order_from-IsDistinct seen (c ∷ rest) = elim (Bool-cases (occurs (key c) seen)) [
    | inl e ↦ rw e (order_from-IsDistinct seen rest)
    | inr e ↦ rw e (
      order_from-unseen (key c) (key c ∷ seen) rest (rw (eqb_refl (key c)) refl),
      order_from-IsDistinct (key c ∷ seen) rest,
    )
  ]

  -- Each key of the list has been seen or comes out.
  order_from-covers :
      (k : Bytes) (seen : List Bytes) (l : List (Candidate Float))
      → occurs k (map key l) ≡ true
      → (occurs k seen || occurs k (order_keys seen l)) ≡ true
  unfolding order_from
  order_from-covers k seen [] h = absurd (let both : false ≡ true = h in cc)
  order_from-covers k seen (c ∷ rest) h = elim (Bool-cases (occurs (key c) seen)) [
    | inl e ↦ rw e (elim (Bool-cases (eqb k (key c))) [
      | inl same ↦ rw (seen_too e same) refl
      | inr other ↦ order_from-covers k seen rest (rw other at h)
    ])
    | inr e ↦ rw e (elim (Bool-cases (eqb k (key c))) [
      | inl same ↦ rw same (or_true (occurs k seen))
      | inr other ↦
          let later = order_from-covers k (key c ∷ seen) rest (rw other at h) in
          rw other (rw other at later)
    ])
  ]
    where
      or_true : (b : Bool) → (b || true) ≡ true
      or_true b = ground arith

      seen_too : occurs (key c) seen ≡ true → eqb k (key c) ≡ true → occurs k seen ≡ true
      seen_too e same = subst (λ x. occurs x seen ≡ true) (sym (eq_of_eqb k (key c) same)) e

  any-map :
      (k : Bytes) (l : List (Candidate Float)) → occurs k (map key l) ≡ any (λ c. eqb k (key c)) l
  any-map k [] = refl
  any-map k (c ∷ l) = ap (λ b. if eqb k (key c) then true else b) (any-map k l)

  -- The test of a candidate, at its index.
  abbrev hit : List (Candidate Float) → (Candidate Float → Bool) → ℕ → Bool
  hit candidates q i = any q (with_some (get_elem? candidates i) [])

  any-candidates_at :
      (candidates : List (Candidate Float)) (q : Candidate Float → Bool) (is : List ℕ)
      → any q (candidates_at candidates is) ≡ any (hit candidates q) is
  any-candidates_at candidates q [] = refl
  any-candidates_at candidates q (i ∷ is) =
      by_place (get_elem? candidates i)
      ∙ ap (λ b. if hit candidates q i then true else b) (any-candidates_at candidates q is)
    where
      by_place :
          (o : Option (Candidate Float))
          → any q (with_some o (candidates_at candidates is))
            ≡ (if any q (with_some o []) then true else any q (candidates_at candidates is))
      by_place none = refl
      by_place (some c) = ground arith

  candidates_at-shift :
      (x : Candidate Float) (candidates l : List (Candidate Float)) (i : ℕ)
      → candidates_at (x ∷ candidates) (indices_from (suc i) l)
        ≡ candidates_at candidates (indices_from i l)
  candidates_at-shift x candidates [] i = refl
  candidates_at-shift x candidates (y ∷ l) i =
      ap (with_some (get_elem? candidates i)) (candidates_at-shift x candidates l (suc i))

  candidates_at-indices :
      (candidates : List (Candidate Float))
      → candidates_at candidates (indices_from 0 candidates) ≡ candidates
  candidates_at-indices [] = refl
  candidates_at-indices (x ∷ l) =
      ap (λ r. x ∷ r) (candidates_at-shift x l l 0 ∙ candidates_at-indices l)

any-insert_stable :
    {A : Type 0} (before : A → A → Bool) (p : A → Bool) (x : A) (l : List A)
    → any p (insert_stable before x l) ≡ (if p x then true else any p l)
unfolding insert_stable
any-insert_stable before p x [] = refl
any-insert_stable before p x (y ∷ l) = ground (arith, any-insert_stable before p x l)

any-sort_stable :
    {A : Type 0} (before : A → A → Bool) (p : A → Bool) (l : List A)
    → any p (sort_stable before l) ≡ any p l
unfolding sort_stable
any-sort_stable before p [] = refl
any-sort_stable before p (x ∷ l) =
    any-insert_stable before p x (sort_stable before l)
    ∙ ap (λ b. if p x then true else b) (any-sort_stable before p l)

-- A shuffle keeps the elements.
abbrev pub IsShuffle : (List ℕ → List ℕ) → Type 0
IsShuffle shuffle = (p : ℕ → Bool) (l : List ℕ) → any p (shuffle l) ≡ any p l

module _ {Float : Type 0} (less : Float → Float → Bool) (shuffle : List ℕ → List ℕ) where
  any-walk_indices :
      (candidates : List (Candidate Float)) (totals : List Float) (p : ℕ → Bool)
      → IsShuffle shuffle
      → any p (walk_indices less shuffle candidates totals) ≡ any p (indices_from 0 candidates)
  unfolding walk_indices
  any-walk_indices candidates totals p h = elim (Bool-cases (length totals == 0)) [
    | inl e ↦ rw e refl
    | inr e ↦
        rw e
          (any-sort_stable (higher_total less shuffle totals) p _ ∙ h p (indices_from 0 candidates))
  ]

  -- On a set without weights, whatever the totals, and for any shuffle that keeps the elements: the
  -- walk starts at the winner, no key comes twice, and the key of every candidate comes.
  pub reserve_order_complete :
      (candidates : List (Candidate Float)) (pick : Candidate Float) (totals : List Float)
      → IsShuffle shuffle
      → is_weighted candidates ≡ false
      → (get_elem? (reserve_order less shuffle candidates (some pick) totals) 0 ≡ some pick)
        × IsDistinct (map key (reserve_order less shuffle candidates (some pick) totals))
        × ((k : Bytes)
            → occurs k (map key candidates) ≡ true
            → occurs k (map key (reserve_order less shuffle candidates (some pick) totals)) ≡ true)
  unfolding reserve_order
  reserve_order_complete candidates pick totals h unweighted =
      let walk = walk_indices less shuffle candidates totals in
      let order = candidates_at candidates walk in
      rw unweighted (
        refl,
        (
          order_from-unseen (key pick) (key pick ∷ []) order (rw (eqb_refl (key pick)) refl),
          order_from-IsDistinct (key pick ∷ []) order,
        ),
        λ k there.
            or_to_if (eqb k (key pick)) (occurs k (order_keys (key pick ∷ []) order))
              (order_from-covers k (key pick ∷ []) order (in_order k there)),
      )
    where
      or_to_if :
          (a b : Bool) → ((if a then true else false) || b) ≡ true → (if a then true else b) ≡ true
      or_to_if a b e = ground arith

      in_order :
          (k : Bytes)
          → occurs k (map key candidates) ≡ true
          → occurs k
              (map key (candidates_at candidates (walk_indices less shuffle candidates totals)))
            ≡ true
      in_order k there =
          let q = λ (c : Candidate Float). eqb k (key c) in
          let walk = walk_indices less shuffle candidates totals in
          any-map k (candidates_at candidates walk)
          ∙ any-candidates_at candidates q walk
          ∙ any-walk_indices candidates totals (hit candidates q) h
          ∙ sym (any-candidates_at candidates q (indices_from 0 candidates))
          ∙ ap (any q) (candidates_at-indices candidates)
          ∙ sym (any-map k candidates)
          ∙ there
