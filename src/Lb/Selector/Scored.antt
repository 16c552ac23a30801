-- ===== src/Lb/Selector/Scored.antt =====
-- selector.go: the sum of the ranks, the best total, and the choice between the modes.
pub mod Maximum
mod Tests
use gpustack_higress_plugin.Common.{
  ℕ, zero, suc, Bytes, Bool, true, false, Option, none, some, List, [], ◌∷◌, lookup, length, ◌==◌,
  not, ◌||◌, ◌&&◌, if◌then◌else◌,
}
use gpustack_higress_plugin.Wire.{Candidate, RankEntry, key}
use gpustack_higress_plugin.Lb.Context.{FloatOps}
use gpustack_higress_plugin.Lb.Selector.{is_weighted, select_weighted, round_robin}

module _ {Float : Type 0} (F : FloatOps Float) where
  open F use {zero_float, one_float, add_float, mul_float, div_float, gt_float}

  -- A score that counts: v > 0
  abbrev positive : Option Float → Option Float
  positive none = none
  positive (some v) = if gt_float v zero_float then some v else none

  abbrev score_of : RankEntry Float → Candidate Float → Option Float
  score_of r c = positive (lookup (key c) r.scores)

  abbrev plus_score : Float → Option Float → Float
  plus_score sum none = sum
  plus_score sum (some v) = add_float sum v

  abbrev sum_scores : RankEntry Float → Float → List (Candidate Float) → Float
  sum_scores r sum [] = sum
  sum_scores r sum (c ∷ cands) = sum_scores r (plus_score sum (score_of r c)) cands

  abbrev voted : Float → Float → Float → Option Float → Float
  voted w sum total none = total
  voted w sum total (some v) = add_float total (div_float (mul_float w v) sum)

  abbrev add_votes :
      RankEntry Float → Float → Float → List (Candidate Float) → List Float → List Float
  add_votes r w sum [] totals = totals
  add_votes r w sum (c ∷ cands) [] = []
  add_votes r w sum (c ∷ cands) (t ∷ totals) =
      voted w sum t (score_of r c) ∷ add_votes r w sum cands totals

  -- The loop over the ranks.
  abbrev combine_from :
      List (Candidate Float) → List (RankEntry Float) → List Float × Bool → List Float × Bool
  combine_from cands [] acc = acc
  combine_from cands (r ∷ ranks) (totals, contributed) =
      let sum = sum_scores r zero_float cands in
      let w = if not (gt_float r.weight zero_float) then one_float else r.weight in
      let skipped = combine_from cands ranks (totals, contributed) in
      let counted = combine_from cands ranks (add_votes r w sum cands totals, true) in
      if not (gt_float sum zero_float) then skipped else counted

  abbrev zeros : List (Candidate Float) → List Float
  zeros [] = []
  zeros (c ∷ cands) = zero_float ∷ zeros cands

  unfoldable pub combine_ranks : List (Candidate Float) → List (RankEntry Float) → List Float × Bool
  unfolding key
  combine_ranks cands ranks = combine_from cands ranks (zeros cands, false)

  -- The variables of bestTotal's loop; `none` is best < 0.
  pub record Best : Type 0 where
    pub best : Option (Candidate Float)
    pub best_score : Float
    pub ties : ℕ

  module _ (eq_float : Float → Float → Bool) (draw : ℕ → ℕ → Bool) where
    -- One round; `draw i ties` is whether rand.Intn(ties) == 0 there.
    abbrev pub best_round :
        ℕ → Option (Candidate Float) → Float → ℕ → Candidate Float → Float → Best
    best_round i none score ties c total = record { best = some c; best_score = total; ties = 1 }
    best_round i (some held) score ties c total =
        if gt_float total score
        then record { best = some c; best_score = total; ties = 1 }
        else if eq_float total score
        then record {
          best = if draw i (suc ties) then some c else some held;
          best_score = score;
          ties = suc ties;
        }
        else record { best = some held; best_score = score; ties = ties }

    abbrev pub best_from : ℕ → Best → List (Candidate Float) → List Float → Best
    best_from i b [] totals = b
    best_from i b (c ∷ cands) [] = b
    best_from i b (c ∷ cands) (t ∷ totals) =
        best_from (suc i) (best_round i b.best b.best_score b.ties c t) cands totals

    unfoldable pub best_total : List (Candidate Float) → List Float → Option (Candidate Float)
    best_total cands totals =
        (best_from 0 (record { best = none; best_score = zero_float; ties = 0 }) cands totals).best

    abbrev with_totals :
        ℕ
        → List (Candidate Float)
        → List Float × Bool
        → (Option (Candidate Float) × Option (List Float)) × ℕ
    with_totals rr_cursor cands (totals, false) =
        let (c, next) = round_robin rr_cursor cands in ((c, none), next)
    with_totals rr_cursor cands (totals, true) = ((best_total cands totals, some totals), rr_cursor)

    -- `ranks` is readRanks, `none` where it fails. The choice, the totals, and the cursor after it.
    unfoldable pub select_scored :
        ℕ
        → List (Candidate Float)
        → Option (List (RankEntry Float))
        → (Option (Candidate Float) × Option (List Float)) × ℕ
    unfolding round_robin combine_ranks best_total
    select_scored rr_cursor cands none =
        let (c, next) = round_robin rr_cursor cands in ((c, none), next)
    select_scored rr_cursor cands (some []) =
        let (c, next) = round_robin rr_cursor cands in ((c, none), next)
    select_scored rr_cursor cands (some (r ∷ ranks)) =
        with_totals rr_cursor cands (combine_ranks cands (r ∷ ranks))

    unfoldable pub select_candidate :
        ℕ
        → List (Candidate Float)
        → Bytes
        → Option (List (RankEntry Float))
        → (Option (Candidate Float) × Option (List Float)) × ℕ
    unfolding is_weighted select_weighted select_scored
    select_candidate rr_cursor [] req_id ranks = ((none, none), rr_cursor)
    select_candidate rr_cursor (c ∷ cands) req_id ranks =
        if is_weighted (c ∷ cands)
        then ((select_weighted (c ∷ cands) req_id, none), rr_cursor)
        else select_scored rr_cursor (c ∷ cands) ranks
