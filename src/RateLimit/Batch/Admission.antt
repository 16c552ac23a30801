-- ===== src/RateLimit/Batch/Admission.antt =====
-- One limit over a whole request: its check, its write, and what the next request sees.
use gpustack_higress_plugin.Common.{
  Bytes, true, false, ◌≡◌, refl, ap, ◌∙◌, some, List, [], ◌∷◌, ℤ, pos, lt64, le64, eqb, add64,
  sub64, IsInt64,
}
use gpustack_higress_plugin.Host.{SharedData, ret, run}
use gpustack_higress_plugin.Host.Run.{run-bind}
use gpustack_higress_plugin.RateLimit.Window.{WindowEntry, local_window_total, local_add_entry}
use gpustack_higress_plugin.RateLimit.Window.Codec.{sum_recent}
use gpustack_higress_plugin.RateLimit.Window.Total.{Holds, window_total-Holds, total_after_add}
use gpustack_higress_plugin.RateLimit.Batch.{
  LimitEntry, mode_check_and_add, mode_check, mode_add, write_pass, batch_eval, limited_at, passed,
}
use gpustack_higress_plugin.RateLimit.Batch.Verdict.{
  is_over, reaches, batch_eval_limited, batch_eval-passed,
}

module _ (H : SharedData Bytes) (now : ℤ) (e : LimitEntry) where
  write_pass-one :
      (s : SharedData.State H)
      → e.mode ≡ mode_check_and_add
      → (run H (write_pass now (e ∷ [])) s).1
        ≡ (run H (local_add_entry e.key now e.count e.window) s).1
  unfolding write_pass run
  write_pass-one s counted =
      let written : eqb e.mode mode_check ≡ false = rw counted refl in
      rw written (
        ap (λ (r : Unit {0} × SharedData.State H). r.1)
          (run-bind H (local_add_entry e.key now e.count e.window) (λ _. ret tt) s))

  is_over-Holds :
      (l : List WindowEntry) (s : SharedData.State H)
      → e.mode ≡ mode_check_and_add
      → Holds H e.key l s
      → is_over H now s e ≡ le64 e.quota (sum_recent (sub64 now e.window) (pos 0) l)
  is_over-Holds l s counted there =
      let checked : eqb e.mode mode_add ≡ false = rw counted refl in
      rw checked (ap (reaches H now s e.quota) (window_total-Holds H e.key now e.window l s there))

  -- One check_and_add entry on a window that holds entries with int64 fields, with an int64 time
  -- and count, a cutoff before the time, and no other worker in between: the batch is refused, with
  -- nothing written, exactly where the total of the window, which counts every entry after the
  -- cutoff, also one later than the time, has reached the quota; otherwise it passes, and a read at
  -- the same time then finds that total plus the entry's count, by int64 addition.
  pub batch_eval_one :
      (l : List WindowEntry) (s : SharedData.State H)
      → e.mode ≡ mode_check_and_add
      → Holds H e.key l s
      → IsInt64 now
      → IsInt64 e.count
      → lt64 (sub64 now e.window) now ≡ true
      → (le64 e.quota (sum_recent (sub64 now e.window) (pos 0) l) ≡ true
          → run H (batch_eval now (e ∷ [])) s ≡ (limited_at e.key, s))
        × (le64 e.quota (sum_recent (sub64 now e.window) (pos 0) l) ≡ false
            → ((run H (batch_eval now (e ∷ [])) s).0 ≡ passed)
              × ((run H
                    (local_window_total e.key now e.window)
                    (run H (batch_eval now (e ∷ [])) s).1).0
                  ≡ some (add64 (sum_recent (sub64 now e.window) (pos 0) l) e.count)))
  batch_eval_one l s counted there hn hc inside = (
    λ over. batch_eval_limited H now s [] [] e tt (is_over-Holds l s counted there ∙ over),
    λ under.
        let (_, _, total) = total_after_add H e.key now e.count e.window l s there hn hc inside in
        let clear =
          batch_eval-passed H now s (e ∷ []) (is_over-Holds l s counted there ∙ under, tt) in
        (
          ap (λ r. r.0) clear,
          ap (λ u. (run H (local_window_total e.key now e.window) u).0)
                (ap (λ r. r.1) clear ∙ write_pass-one s counted)
              ∙ total,
        ),
  )
