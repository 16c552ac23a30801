-- ===== src/Affinity.antt =====
-- extensions/gpustack-lb-session-affinity/affinity.go: rendezvous hashing of the candidates for a
-- session key, and the scores by rank.
pub mod Order
pub mod Removal
pub mod Prefix
pub mod Shuffle
mod Tests
use gpustack_higress_plugin.Common.{
  ℕ, zero, suc, ◌*◌, ◌/◌, ◌%◌, ◌^◌, bit_xor, Bytes, Bool, true, false, Option, none, some, List, [],
  ◌∷◌, ◌++◌, insert, eqb, length, ltb, ◌==◌, ◌&&◌, ◌||◌, map, if◌then◌else◌,
}
use gpustack_higress_plugin.Wire.{Candidate, key}
use gpustack_higress_plugin.Lb.Selector.{fnv_from, fnv_offset}
use gpustack_higress_plugin.Lb.Context.{FloatOps, less_bytes}

-- x ^= x >> 33, and the multiplications of a uint64
abbrev shift_mix : ℕ → ℕ
shift_mix x = bit_xor x (x / 2 ^ 33)

unfoldable pub mix64 : ℕ → ℕ
mix64 x =
    let y = shift_mix x * 0xff51afd7ed558ccd % 2 ^ 64 in
    shift_mix (shift_mix y * 0xc4ceb9fe1a85ec53 % 2 ^ 64)

-- binary.LittleEndian.PutUint64, in `k` bytes
abbrev pub put_uint : ℕ → ℕ → Bytes
put_uint zero n = []
put_uint (suc k) n = n % 256 ∷ put_uint k (n / 256)

-- What is hashed: the length of the session key in 8 bytes, the key, and the candidate's key.
abbrev pub hash_input : Bytes → Bytes → Bytes
hash_input session cand_key = put_uint 8 (length session % 2 ^ 64) ++ session ++ cand_key

-- rendezvousScore times 2^53: unitFloat divides the top 53 bits by 2^53, which is exact.
unfoldable pub rendezvous_score : Bytes → Bytes → ℕ
unfolding mix64 fnv_from
rendezvous_score session cand_key =
    mix64 (fnv_from fnv_offset (hash_input session cand_key)) / 2 ^ 11

pub record Scored : Type 0 where
  pub cand_key : Bytes
  pub hrw : ℕ

-- The order of sort.Slice.
abbrev pub ranks_before : Scored → Scored → Bool
ranks_before a b = if a.hrw == b.hrw then less_bytes a.cand_key b.cand_key else ltb b.hrw a.hrw

abbrev pub insert_scored : Scored → List Scored → List Scored
insert_scored a [] = a ∷ []
insert_scored a (b ∷ rest) =
    let later = insert_scored a rest in if ranks_before b a then b ∷ later else a ∷ b ∷ rest

abbrev pub sort_scored : List Scored → List Scored
sort_scored [] = []
sort_scored (a ∷ rest) = insert_scored a (sort_scored rest)

abbrev pub scored : Bytes → Bytes → Scored
scored session cand_key = record { cand_key = cand_key; hrw = rendezvous_score session cand_key }

-- The candidates' keys, best first.
unfoldable pub ranking : Bytes → List Bytes → List Scored
unfolding rendezvous_score
ranking session cand_keys = sort_scored (map (scored session) cand_keys)

module _ {Float : Type 0} (F : FloatOps Float) (affinity_decay : Float) where
  -- The loop that fills the map: out[key] = v, v *= affinityDecay
  abbrev decayed : Float → List Scored → List (Bytes × Float) → List (Bytes × Float)
  decayed v [] out = out
  decayed v (e ∷ rest) out = decayed (F.mul_float v affinity_decay) rest (insert e.cand_key v out)

  -- `none` is an abstention.
  unfoldable pub affinity_scores : List (Candidate Float) → Bytes → Option (List (Bytes × Float))
  unfolding ranking key
  affinity_scores cands session =
      if eqb session []
      then none
      else some (decayed F.one_float (ranking session (map key cands)) [])
