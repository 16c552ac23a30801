-- ===== src/Lb/Selector.antt =====
-- extensions/gpustack-lb/selector.go: the weighted pick, the round-robin fallback, and the sum of
-- the ranks. A candidate pointer is the candidate; log lines are left out.
pub mod Weighted
pub mod Rotation
pub mod Scored
mod Tests
use gpustack_higress_plugin.Common.{
  ℕ, suc, ◌+◌, ◌-◌, ◌*◌, ◌%◌, ◌^◌, bit_xor, Bytes, Bool, true, false, Option, none, some, List, [],
  ◌∷◌, ℤ, pos, lt64, le64, add64, sub64, to_uint64, to_int64, any, length, get_elem?, ◌==◌,
  if◌then◌else◌,
}
use gpustack_higress_plugin.Wire.{Candidate}

module _ {Float : Type 0} where
  abbrev pub has_weight : Candidate Float → Bool
  has_weight c = elim c.weight [ none ↦ false | some w ↦ true ]

  unfoldable pub is_weighted : List (Candidate Float) → Bool
  is_weighted candidates = any has_weight candidates

  abbrev pub weight_of : Candidate Float → ℤ
  weight_of c = elim c.weight [ none ↦ pos 0 | some w ↦ w ]

-- hash/fnv, New64a
abbrev pub fnv_offset : ℕ
fnv_offset = 14695981039346656037

abbrev pub fnv_prime : ℕ
fnv_prime = 1099511628211

unfoldable pub fnv_from : ℕ → Bytes → ℕ
fnv_from h [] = h
fnv_from h (b ∷ rest) = fnv_from (bit_xor h b * fnv_prime % 2 ^ 64) rest

unfoldable pub hash64 : Bytes → ℕ
unfolding fnv_from
hash64 s = fnv_from fnv_offset s

abbrev pub max_int64 : ℤ
max_int64 = pos (2 ^ 63 - 1)

module _ {Float : Type 0} where
  unfoldable pub uniform_pick : List (Candidate Float) → Bytes → Option (Candidate Float)
  uniform_pick candidates req_id = get_elem? candidates (hash64 req_id % length candidates)

  -- The first loop of selectWeighted; `none` where it leaves for uniformPick.
  unfoldable pub sum_weights : ℤ → List (Candidate Float) → Option ℤ
  unfolding sub64 add64
  sum_weights total [] = some total
  sum_weights total (c ∷ rest) =
      let w = weight_of c in
      let skipped = sum_weights total rest in
      let added = sum_weights (add64 total w) rest in
      if le64 w (pos 0) then skipped else if lt64 (sub64 max_int64 w) total then none else added

  -- The second loop; `none` where it runs to its end.
  unfoldable pub pick_at : ℤ → ℤ → List (Candidate Float) → Option (Candidate Float)
  unfolding add64
  pick_at point acc [] = none
  pick_at point acc (c ∷ rest) =
      let w = weight_of c in
      let skipped = pick_at point acc rest in
      let later = pick_at point (add64 acc w) rest in
      if le64 w (pos 0) then skipped else if lt64 point (add64 acc w) then some c else later

  -- The pick, or the last candidate where the second loop runs to its end.
  abbrev pub or_last : List (Candidate Float) → Option (Candidate Float) → Option (Candidate Float)
  or_last candidates none = get_elem? candidates (length candidates - 1)
  or_last candidates (some c) = some c

  -- selectWeighted after its first loop, at the sum of the weights.
  unfoldable pub select_at : List (Candidate Float) → Bytes → Option ℤ → Option (Candidate Float)
  unfolding uniform_pick pick_at to_uint64 to_int64
  select_at candidates req_id none = uniform_pick candidates req_id
  select_at candidates req_id (some total) =
      let point = to_int64 (hash64 req_id % to_uint64 total) in
      if le64 total (pos 0)
      then uniform_pick candidates req_id
      else or_last candidates (pick_at point (pos 0) candidates)

  unfoldable pub select_weighted : List (Candidate Float) → Bytes → Option (Candidate Float)
  unfolding sum_weights select_at
  select_weighted [] req_id = none
  select_weighted (c ∷ rest) req_id = select_at (c ∷ rest) req_id (sum_weights (pos 0) (c ∷ rest))

  -- The choice, and the cursor rrCursor after it.
  unfoldable pub round_robin : ℕ → List (Candidate Float) → Option (Candidate Float) × ℕ
  round_robin rr_cursor candidates =
      if length candidates == 0
      then (none, rr_cursor)
      else (get_elem? candidates (rr_cursor % length candidates), suc rr_cursor % 2 ^ 64)
