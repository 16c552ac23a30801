-- ===== src/RateLimit/Tests.antt =====
-- The rate limit's local backend at concrete windows.
use gpustack_higress_plugin.Common.{
  Bytes, true, false, ◌≡◌, refl, inr, some, List, [], ◌∷◌, ℤ, pos, codes, arith, add64, sub64, le64,
}
use gpustack_higress_plugin.Host.{SharedData, run}
use gpustack_higress_plugin.Host.Table.{table, Log}
use gpustack_higress_plugin.RateLimit.Window.{
  WindowEntry, encode_entries, decode_entries, total_in, local_window_total, local_add_entry, added,
}
use gpustack_higress_plugin.RateLimit.Window.Codec.{decode_entries-encode_entries, sum_recent}
use gpustack_higress_plugin.RateLimit.Window.Total.{Holds, added_to, total_after_add}
use gpustack_higress_plugin.RateLimit.Batch.{
  LimitEntry, mode_check_and_add, batch_eval, limited_at, passed,
}
use gpustack_higress_plugin.RateLimit.Batch.Verdict.{batch_eval_limited}
use gpustack_higress_plugin.RateLimit.Batch.Admission.{batch_eval_one}

-- Two requests, at 40 and 95.
abbrev requests : List WindowEntry
requests =
    record { timestamp = pos 40; count = pos 1 } ∷ record { timestamp = pos 95; count = pos 2 } ∷ []

decode_entries-encode_entries_example : decode_entries (encode_entries requests) ≡ requests
decode_entries-encode_entries_example = decode_entries-encode_entries requests (
  ((omega arith, omega arith), (omega arith, omega arith)),
  (((omega arith, omega arith), (omega arith, omega arith)), tt),
)

abbrev H : SharedData Bytes
H = table Bytes

abbrev user : Bytes
user = codes "user"

abbrev s : Log Bytes
s = (user, encode_entries requests) ∷ []

s-Holds : Holds H user requests s
s-Holds = (
  (
    ((omega arith, omega arith), (omega arith, omega arith)),
    (((omega arith, omega arith), (omega arith, omega arith)), tt),
  ),
  inr (1, refl),
)

total_after_add_example :
    ((run H (local_add_entry user (pos 100) (pos 3) (pos 10)) s).0 ≡ added)
    × Holds H user
        (added_to (sub64 (pos 100) (pos 10)) (pos 100) (pos 3) requests)
        (run H (local_add_entry user (pos 100) (pos 3) (pos 10)) s).1
    × ((run H
          (local_window_total user (pos 100) (pos 10))
          (run H (local_add_entry user (pos 100) (pos 3) (pos 10)) s).1).0
        ≡ some (add64 (sum_recent (sub64 (pos 100) (pos 10)) (pos 0) requests) (pos 3)))
unfolding sub64
total_after_add_example =
    total_after_add H user (pos 100) (pos 3) (pos 10) requests s s-Holds (omega arith, omega arith)
      (omega arith, omega arith) refl

abbrev limit : ℤ → LimitEntry
limit quota = record {
  key = user;
  window = pos 10;
  quota = quota;
  mode = mode_check_and_add;
  member = [];
  count = pos 1;
  ttl = pos 10;
  combo = [];
  kind = [];
  period = [];
  bucket = [];
}

batch_eval_limited_example :
    run H (batch_eval (pos 100) (limit (pos 5) ∷ limit (pos 2) ∷ limit (pos 1) ∷ [])) s
    ≡ (limited_at user, s)
unfolding run local_window_total total_in encode_entries
batch_eval_limited_example =
    batch_eval_limited H (pos 100) s (limit (pos 5) ∷ []) (limit (pos 1) ∷ []) (limit (pos 2))
      (refl, tt) refl

batch_eval_one_example :
    (le64 (pos 5) (sum_recent (sub64 (pos 100) (pos 10)) (pos 0) requests) ≡ true
      → run H (batch_eval (pos 100) (limit (pos 5) ∷ [])) s ≡ (limited_at user, s))
    × (le64 (pos 5) (sum_recent (sub64 (pos 100) (pos 10)) (pos 0) requests) ≡ false
        → ((run H (batch_eval (pos 100) (limit (pos 5) ∷ [])) s).0 ≡ passed)
          × ((run H
                (local_window_total user (pos 100) (pos 10))
                (run H (batch_eval (pos 100) (limit (pos 5) ∷ [])) s).1).0
              ≡ some (add64 (sum_recent (sub64 (pos 100) (pos 10)) (pos 0) requests) (pos 1))))
unfolding sub64
batch_eval_one_example =
    batch_eval_one H (pos 100) (limit (pos 5)) requests s refl s-Holds (omega arith, omega arith)
      (omega arith, omega arith) refl

-- An entry of 150 counts at 100: the window is bounded below only.
later_counted :
    (run H
      (local_window_total user (pos 100) (pos 10))
      ((user, encode_entries (record { timestamp = pos 150; count = pos 4 } ∷ requests)) ∷ [])).0
    ≡ some (pos 6)
unfolding run local_window_total total_in encode_entries sub64
later_counted = refl
