-- ===== src/Wire/Key.antt =====
-- Candidate.Key is injective: the separator occurs in neither half.
use gpustack_higress_plugin.Common.{ℕ, Bytes, ◌≡◌, ◌≢◌, ◌↔◌, refl, sym, [], ◌∷◌, All}
use gpustack_higress_plugin.Wire.{Candidate, join_key, key}

abbrev pub HasNoNul : Bytes → Type 0
HasNoNul s = All (λ (b : ℕ). b ≢ 0) s

join_key-cons : (a : ℕ) (c s : Bytes) → join_key (a ∷ c) s ≡ a ∷ join_key c s
join_key-cons a c [] = refl
join_key-cons a c (x ∷ s) = refl

join_key-nil-ne : (b : ℕ) (d s t : Bytes) → b ≢ 0 → join_key [] s ≢ join_key (b ∷ d) t
join_key-nil-ne b d [] t h e = cc (join_key-cons b d t)
join_key-nil-ne b d (x ∷ s) t h e = h (cc (join_key-cons b d t))

join_key-nil : (s t : Bytes) → join_key [] s ≡ join_key [] t → s ≡ t
join_key-nil [] [] e = refl
join_key-nil [] (y ∷ t) e = cc
join_key-nil (x ∷ s) [] e = cc
join_key-nil (x ∷ s) (y ∷ t) e = cc

pub join_key-injective :
    (c d s t : Bytes) → HasNoNul c → HasNoNul d → join_key c s ≡ join_key d t → (c ≡ d) × (s ≡ t)
join_key-injective [] [] s t hc hd e = (refl, join_key-nil s t e)
join_key-injective [] (b ∷ d) s t hc hd e = absurd (join_key-nil-ne b d s t hd.0 e)
join_key-injective (a ∷ c) [] s t hc hd e = absurd (join_key-nil-ne a c t s hc.0 (sym e))
join_key-injective (a ∷ c) (b ∷ d) s t hc hd e =
    let (same, rest) =
      join_key-injective c d s t hc.1 hd.1 (cc (join_key-cons a c s, join_key-cons b d t)) in
    (cc (join_key-cons a c s, join_key-cons b d t), rest)

-- Two candidates whose cluster names hold no NUL byte have the same key exactly when they have the
-- same cluster and the same target id.
pub key-eq_iff :
    {Float : Type 0} (c d : Candidate Float)
    → HasNoNul c.cluster
    → HasNoNul d.cluster
    → (key c ≡ key d) ↔ ((c.cluster ≡ d.cluster) × (c.target_id ≡ d.target_id))
unfolding key
key-eq_iff c d hc hd =
    (join_key-injective c.cluster d.cluster c.target_id d.target_id hc hd, λ e. cc (e.0, e.1))
