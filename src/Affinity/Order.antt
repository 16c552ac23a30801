-- ===== src/Affinity/Order.antt =====
-- The order of the ranking is total, so sorting and leaving candidates out commute.
use gpustack_higress_plugin.Common.{◌≡◌, refl, Bytes, true, false, [], ◌∷◌, arith}
use gpustack_higress_plugin.Lb.Context.{less_bytes}
use gpustack_higress_plugin.Affinity.{Scored, ranks_before}

less_bytes-asym : (s t : Bytes) → less_bytes s t ≡ true → less_bytes t s ≡ false
less_bytes-asym s [] h = absurd (cc)
less_bytes-asym [] (y ∷ t) h = refl
less_bytes-asym (x ∷ s) (y ∷ t) h = ground (arith, less_bytes-asym s t)

-- Not after, and not after again, is not after.
less_bytes_trans :
    (s t u : Bytes) → less_bytes t s ≡ false → less_bytes u t ≡ false → less_bytes u s ≡ false
less_bytes_trans [] t u h k = refl
less_bytes_trans (x ∷ s) [] u h k = absurd (cc)
less_bytes_trans (x ∷ s) (y ∷ t) [] h k = absurd (cc)
less_bytes_trans (x ∷ s) (y ∷ t) (z ∷ u) h k = ground (arith, less_bytes_trans s t u)

-- a is not behind b.
abbrev pub IsAhead : Scored → Scored → Type 0
IsAhead a b = ranks_before b a ≡ false

pub IsAhead-of_before : (a b : Scored) → ranks_before a b ≡ true → IsAhead a b
IsAhead-of_before a b h = ground (arith, less_bytes-asym a.cand_key b.cand_key)

pub IsAhead-trans : (a b c : Scored) → IsAhead a b → IsAhead b c → IsAhead a c
IsAhead-trans a b c h k = ground (arith, less_bytes_trans a.cand_key b.cand_key c.cand_key)

less_bytes-antisym : (s t : Bytes) → less_bytes s t ≡ false → less_bytes t s ≡ false → s ≡ t
less_bytes-antisym [] [] h k = refl
less_bytes-antisym [] (y ∷ t) h k = absurd (cc)
less_bytes-antisym (x ∷ s) [] h k = absurd (cc)
less_bytes-antisym (x ∷ s) (y ∷ t) h k = ground (arith, less_bytes-antisym s t)

equal_scored : (a b : Scored) → a.cand_key ≡ b.cand_key → a.hrw ≡ b.hrw → a ≡ b
equal_scored a b e f = rw (e, f) refl

pub IsAhead-antisym : (a b : Scored) → IsAhead a b → IsAhead b a → a ≡ b
IsAhead-antisym a b h k =
    let same : a.hrw ≡ b.hrw = ground arith in
    equal_scored a b (ground (arith, less_bytes-antisym a.cand_key b.cand_key)) same

pub before_of_ahead :
    (a b c : Scored) → IsAhead a b → ranks_before b c ≡ true → ranks_before a c ≡ true
before_of_ahead a b c h k = ground (arith, IsAhead-trans c a b)
