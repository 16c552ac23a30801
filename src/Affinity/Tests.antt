-- ===== src/Affinity/Tests.antt =====
-- Rendezvous hashing at concrete keys.
use mathlib.Core.List.{Permᴰ}
use gpustack_higress_plugin.Common.{
  ◌≡◌, refl, Bytes, Bool, List, [], ◌∷◌, codes, eqb, keep, not, arith,
}
use gpustack_higress_plugin.Affinity.{ranking}
use gpustack_higress_plugin.Affinity.Removal.{ranking-keep}
use gpustack_higress_plugin.Affinity.Shuffle.{ranking-Perm}
use gpustack_higress_plugin.Affinity.Prefix.{hash_input-inj}

abbrev cand_keys : List Bytes
cand_keys = codes "a" ∷ codes "b" ∷ codes "c" ∷ []

abbrev not_b : Bytes → Bool
not_b k = not (eqb k (codes "b"))

ranking-keep_example :
    ranking (codes "session") (keep not_b cand_keys)
    ≡ keep (λ s. not_b s.cand_key) (ranking (codes "session") cand_keys)
ranking-keep_example = ranking-keep (codes "session") cand_keys not_b

ranking-Perm_example :
    ranking (codes "session") (codes "a" ∷ codes "b" ∷ [])
    ≡ ranking (codes "session") (codes "b" ∷ codes "a" ∷ [])
ranking-Perm_example = ranking-Perm (codes "session") (Permᴰ.swap refl refl)

hash_input-inj_example : (codes "ab" ≡ codes "ab") × (codes "c" ≡ codes "c")
hash_input-inj_example =
    hash_input-inj (codes "ab") (codes "ab") (codes "c") (codes "c") (omega arith) (omega arith)
      refl
