-- ===== src/Affinity/Removal.antt =====
-- What happens to a session's ranking when candidates leave.
use gpustack_higress_plugin.Common.{
  ◌≡◌, refl, sym, ap, ◌∙◌, inl, inr, Bytes, Bool, List, [], ◌∷◌, All, keep, map, Bool-cases,
  if◌then◌else◌,
}
use gpustack_higress_plugin.Affinity.{
  Scored, ranks_before, insert_scored, sort_scored, scored, ranking,
}
use gpustack_higress_plugin.Affinity.Order.{IsAhead, IsAhead-of_before, IsAhead-trans}

abbrev pub IsRanked : List Scored → Type 0
IsRanked [] = Unit
IsRanked (a ∷ l) = All (IsAhead a) l × IsRanked l

All-insert_scored :
    (x a : Scored) (l : List Scored)
    → IsAhead x a
    → All (IsAhead x) l
    → All (IsAhead x) (insert_scored a l)
All-insert_scored x a [] h all = (h, tt)
All-insert_scored x a (b ∷ l) h all = elim (Bool-cases (ranks_before b a)) [
  | inl before ↦ rw before (all.0, All-insert_scored x a l h all.1)
  | inr behind ↦ rw behind (h, all)
]

All-IsAhead : (a b : Scored) (l : List Scored) → IsAhead a b → All (IsAhead b) l → All (IsAhead a) l
All-IsAhead a b [] h all = tt
All-IsAhead a b (c ∷ l) h all = (IsAhead-trans a b c h all.0, All-IsAhead a b l h all.1)

insert_scored-IsRanked : (a : Scored) (l : List Scored) → IsRanked l → IsRanked (insert_scored a l)
insert_scored-IsRanked a [] r = (tt, tt)
insert_scored-IsRanked a (b ∷ l) r = elim (Bool-cases (ranks_before b a)) [
  | inl before ↦
      rw before
        (All-insert_scored b a l (IsAhead-of_before b a before) r.0, insert_scored-IsRanked a l r.1)
  | inr ahead ↦ rw ahead ((ahead, All-IsAhead a b l ahead r.0), r)
]

pub sort_scored-IsRanked : (l : List Scored) → IsRanked (sort_scored l)
sort_scored-IsRanked [] = tt
sort_scored-IsRanked (a ∷ l) = insert_scored-IsRanked a (sort_scored l) (sort_scored-IsRanked l)

module _ (p : Scored → Bool) where
  All-keep : (a : Scored) (l : List Scored) → All (IsAhead a) l → All (IsAhead a) (keep p l)
  All-keep a [] all = tt
  All-keep a (b ∷ l) all = elim (Bool-cases (p b)) [
    | inl stays ↦ rw stays (all.0, All-keep a l all.1)
    | inr leaves ↦ rw leaves (All-keep a l all.1)
  ]

  -- An element that is ahead of all goes in front.
  insert_in_front : (a : Scored) (l : List Scored) → All (IsAhead a) l → insert_scored a l ≡ a ∷ l
  insert_in_front a [] all = refl
  insert_in_front a (b ∷ l) all = rw (all.0) refl

  keep-insert_scored :
      (a : Scored) (l : List Scored)
      → IsRanked l
      → keep p (insert_scored a l) ≡ (if p a then insert_scored a (keep p l) else keep p l)
  keep-insert_scored a [] r = refl
  keep-insert_scored a (b ∷ l) r = elim (Bool-cases (ranks_before b a)) [
    | inl before ↦
        let ih = keep-insert_scored a l r.1 in
        elim (Bool-cases (p b)) [
          | inl stays ↦ elim (Bool-cases (p a)) [
            | inl new ↦ rw (before, stays, new) (rw before (ap (λ k. b ∷ k) (ih ∙ rw new refl)))
            | inr gone ↦ rw (before, stays, gone) (ap (λ k. b ∷ k) (ih ∙ rw gone refl))
          ]
          | inr leaves ↦ rw (before, leaves) ih
        ]
    | inr ahead ↦ elim (Bool-cases (p a)) [
      | inl new ↦
          rw (ahead, new)
            (sym (
              insert_in_front a (keep p (b ∷ l))
                (All-keep a (b ∷ l) (ahead, All-IsAhead a b l ahead r.0))))
      | inr gone ↦ rw (ahead, gone) refl
    ]
  ]

  keep-sort_scored : (l : List Scored) → keep p (sort_scored l) ≡ sort_scored (keep p l)
  keep-sort_scored [] = refl
  keep-sort_scored (a ∷ l) =
      keep-insert_scored a (sort_scored l) (sort_scored-IsRanked l) ∙ (elim (Bool-cases (p a)) [
        | inl stays ↦ rw stays (ap (insert_scored a) (keep-sort_scored l))
        | inr leaves ↦ rw leaves (keep-sort_scored l)
      ])

keep-map-scored :
    (p : Bytes → Bool) (session : Bytes) (ks : List Bytes)
    → keep (λ s. p s.cand_key) (map (scored session) ks) ≡ map (scored session) (keep p ks)
keep-map-scored p session [] = refl
keep-map-scored p session (k ∷ ks) = elim (Bool-cases (p k)) [
  | inl stays ↦ rw stays (ap (λ l. scored session k ∷ l) (keep-map-scored p session ks))
  | inr leaves ↦ rw leaves (keep-map-scored p session ks)
]

-- When candidates leave, a session's ranking of the rest keeps its order, so a session whose best
-- candidate stays keeps it.
pub ranking-keep :
    (session : Bytes) (cand_keys : List Bytes) (stays : Bytes → Bool)
    → ranking session (keep stays cand_keys)
      ≡ keep (λ s. stays s.cand_key) (ranking session cand_keys)
unfolding ranking
ranking-keep session cand_keys stays =
    ap sort_scored (sym (keep-map-scored stays session cand_keys))
    ∙ sym (keep-sort_scored (λ s. stays s.cand_key) (map (scored session) cand_keys))
