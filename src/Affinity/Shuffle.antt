-- ===== src/Affinity/Shuffle.antt =====
-- The ranking does not depend on the order in which the candidates come.
use mathlib.Core.List.{Permᴰ}
use gpustack_higress_plugin.Common.{
  ◌≡◌, refl, sym, ap, ◌∙◌, inl, inr, Bytes, List, [], ◌∷◌, map, Bool-cases, if◌then◌else◌,
}
use gpustack_higress_plugin.Affinity.{
  Scored, ranks_before, insert_scored, sort_scored, scored, ranking,
}
use gpustack_higress_plugin.Affinity.Order.{IsAhead-of_before, IsAhead-antisym, before_of_ahead}

two_in_front :
    (a b : Scored) (l : List Scored)
    → (if ranks_before b a then b ∷ a ∷ l else a ∷ b ∷ l)
      ≡ (if ranks_before a b then a ∷ b ∷ l else b ∷ a ∷ l)
two_in_front a b l = elim (Bool-cases (ranks_before b a)) [
  | inl first ↦ rw (first, IsAhead-of_before b a first) refl
  | inr ahead ↦ elim (Bool-cases (ranks_before a b)) [
    | inl first ↦ rw (ahead, first) refl
    | inr behind ↦
        rw (ahead, behind)
          (ap (λ c. a ∷ c ∷ l) (sym (IsAhead-antisym a b ahead behind))
            ∙ ap (λ c. c ∷ a ∷ l) (IsAhead-antisym a b ahead behind))
  ]
]

insert_scored_comm :
    (a b : Scored) (l : List Scored)
    → insert_scored a (insert_scored b l) ≡ insert_scored b (insert_scored a l)
insert_scored_comm a b [] = two_in_front a b []
insert_scored_comm a b (c ∷ l) = elim (Bool-cases (ranks_before c a)) [
  | inl ca ↦ elim (Bool-cases (ranks_before c b)) [
    | inl cb ↦ rw (ca, cb) (rw ca (ap (λ k. c ∷ k) (insert_scored_comm a b l)))
    | inr bc ↦ rw (ca, bc) (rw (before_of_ahead b c a bc ca, ca) refl)
  ]
  | inr ac ↦ elim (Bool-cases (ranks_before c b)) [
    | inl cb ↦ rw (ac, cb) (rw (before_of_ahead a c b ac cb, ac) refl)
    | inr bc ↦ rw (ac, bc) (rw ac (two_in_front a b (c ∷ l)))
  ]
]

-- Workers that see the same candidates in different orders rank them alike for a session.
pub ranking-Perm :
    (session : Bytes) {cand_keys others : List Bytes}
    → Permᴰ cand_keys others
    → ranking session cand_keys ≡ ranking session others
unfolding ranking
ranking-Perm session Permᴰ.nil = refl
ranking-Perm session (Permᴰ.cons {b = b} e p) =
    rw e (ap (insert_scored (scored session b)) (ranking-Perm session p))
ranking-Perm session (Permᴰ.swap {a' = x} {b' = y} {l = l} e f) =
    rw (e, f)
      (insert_scored_comm (scored session y) (scored session x)
        (sort_scored (map (scored session) l)))
ranking-Perm session (Permᴰ.trans p q) = ranking-Perm session p ∙ ranking-Perm session q
