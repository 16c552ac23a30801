-- ===== src/RateLimit/Batch/Verdict.antt =====
-- What BatchEval answers, and that a refused batch writes nothing.
use gpustack_higress_plugin.Common.{
  Bytes, Bool, true, false, ◌≡◌, refl, sym, ap, ◌∙◌, inl, inr, Option, none, some, List, [], ◌∷◌,
  ◌++◌, ℤ, le64, eqb, All, Bool-cases, if◌then◌else◌,
}
use mathlib.Core.List.{append-nil}
use gpustack_higress_plugin.Host.{SharedData, Program, ret, run, ◌>>=◌}
use gpustack_higress_plugin.Host.Run.{run-bind}
use gpustack_higress_plugin.RateLimit.Window.{local_window_total}
use gpustack_higress_plugin.RateLimit.Window.Total.{run-window_total}
use gpustack_higress_plugin.RateLimit.Batch.{
  LimitEntry, mode_add, check_verdict, check_pass, write_pass, batch_eval, after_check, limited_at,
  passed,
}

module _ (H : SharedData Bytes) (now : ℤ) (s : SharedData.State H) where
  -- The total of an entry's window; `none` where it cannot be read.
  abbrev pub total_of : LimitEntry → Option ℤ
  total_of e = (run H (local_window_total e.key now e.window) s).0

  abbrev pub reaches : ℤ → Option ℤ → Bool
  reaches quota none = false
  reaches quota (some total) = le64 quota total

  -- The entry is checked, its window can be read, and its total has reached the quota.
  abbrev pub is_over : LimitEntry → Bool
  is_over e = if eqb e.mode mode_add then false else reaches e.quota (total_of e)

  check_verdict-reaches :
      (e : LimitEntry) (others : Program Bytes (Option Bytes)) (t : Option ℤ)
      → run H (check_verdict e others t) s
        ≡ (if reaches e.quota t then (some e.key, s) else run H others s)
  unfolding run check_verdict
  check_verdict-reaches e others none = refl
  check_verdict-reaches e others (some total) = elim (Bool-cases (le64 e.quota total)) [
    | inl h ↦ rw h refl
    | inr h ↦ rw h refl
  ]

  total_reads : (e : LimitEntry) → run H (local_window_total e.key now e.window) s ≡ (total_of e, s)
  total_reads e =
      run-window_total H e.key now e.window s
      ∙ ap (λ (t : Option ℤ). (t, s))
          (ap (λ (r : Option ℤ × SharedData.State H). r.0)
            (sym (run-window_total H e.key now e.window s)))

  check_checked :
      (e : LimitEntry) (others : Program Bytes (Option Bytes))
      → run H (local_window_total e.key now e.window >>= check_verdict e others) s
        ≡ (if reaches e.quota (total_of e) then (some e.key, s) else run H others s)
  check_checked e others =
      run-bind H (local_window_total e.key now e.window) (check_verdict e others) s
      ∙ ap (λ (r : Option ℤ × SharedData.State H). run H (check_verdict e others r.0) r.1)
          (total_reads e)
      ∙ check_verdict-reaches e others (total_of e)

  check_pass-cons :
      (e : LimitEntry) (rest : List LimitEntry)
      → run H (check_pass now (e ∷ rest)) s
        ≡ (if is_over e then (some e.key, s) else run H (check_pass now rest) s)
  unfolding check_pass
  check_pass-cons e rest = elim (Bool-cases (eqb e.mode mode_add)) [
    | inl h ↦ rw h refl
    | inr h ↦ rw h (check_checked e (check_pass now rest))
  ]

  check_pass_nil : run H (check_pass now []) s ≡ (none, s)
  unfolding check_pass run
  check_pass_nil = refl

  check_pass-skip :
      (before rest : List LimitEntry)
      → All (λ e. is_over e ≡ false) before
      → run H (check_pass now (before ++ rest)) s ≡ run H (check_pass now rest) s
  check_pass-skip [] rest h = refl
  check_pass-skip (e ∷ before) rest (under, h) =
      check_pass-cons e (before ++ rest)
      ∙ ap (λ b. if b then (some e.key, s) else run H (check_pass now (before ++ rest)) s) under
      ∙ check_pass-skip before rest h

  run-batch_eval :
      (entries : List LimitEntry) {o : Option Bytes}
      → run H (check_pass now entries) s ≡ (o, s)
      → run H (batch_eval now entries) s ≡ run H (after_check now entries o) s
  unfolding batch_eval
  run-batch_eval entries e =
      run-bind H (check_pass now entries) (after_check now entries) s
      ∙ ap (λ (r : Option Bytes × SharedData.State H). run H (after_check now entries r.0) r.1) e

  run-after_check :
      (entries : List LimitEntry)
      → run H (after_check now entries none) s ≡ (passed, (run H (write_pass now entries) s).1)
  unfolding run
  run-after_check entries = run-bind H (write_pass now entries) (λ _. ret passed) s

  -- Where the first entry over its quota is `e`, the batch is refused with its key, and nothing is
  -- written, whatever entries stand behind it.
  pub batch_eval_limited :
      (before rest : List LimitEntry) (e : LimitEntry)
      → All (λ x. is_over x ≡ false) before
      → is_over e ≡ true
      → run H (batch_eval now (before ++ e ∷ rest)) s ≡ (limited_at e.key, s)
  unfolding run
  batch_eval_limited before rest e under over =
      let refused : run H (check_pass now (before ++ e ∷ rest)) s ≡ (some e.key, s) =
        check_pass-skip before (e ∷ rest) under
        ∙ check_pass-cons e rest
        ∙ ap (λ b. if b then (some e.key, s) else run H (check_pass now rest) s) over in
      run-batch_eval (before ++ e ∷ rest) refused

  -- Where no entry is over its quota, the batch passes, and what it leaves is the second pass.
  pub batch_eval-passed :
      (entries : List LimitEntry)
      → All (λ x. is_over x ≡ false) entries
      → run H (batch_eval now entries) s ≡ (passed, (run H (write_pass now entries) s).1)
  batch_eval-passed entries under =
      let clear : run H (check_pass now entries) s ≡ (none, s) =
        ap (λ l. run H (check_pass now l) s) (sym (append-nil entries))
        ∙ check_pass-skip entries [] under
        ∙ check_pass_nil in
      run-batch_eval entries clear ∙ run-after_check entries
