-- ===== src/RateLimit/Batch.antt =====
-- extensions/gpustack-rate-limit/backend.go: BatchEval of the local backend. What the callback is
-- given is part of the result.
pub mod Verdict
pub mod Admission
use gpustack_higress_plugin.Common.{
  ℕ, Bytes, Bool, Option, none, some, List, [], ◌∷◌, ℤ, codes, le64, eqb, if◌then◌else◌,
}
use gpustack_higress_plugin.Host.{Program, ret, ◌>>=◌}
use gpustack_higress_plugin.RateLimit.Window.{Added, local_window_total, local_add_entry}

abbrev pub mode_check_and_add : Bytes
mode_check_and_add = codes "check_and_add"

abbrev pub mode_check : Bytes
mode_check = codes "check"

abbrev pub mode_add : Bytes
mode_add = codes "add"

abbrev pub lua_success_reply : Bytes
lua_success_reply = codes "SUCCESS"

abbrev pub lua_limited_reply : Bytes
lua_limited_reply = codes "LIMITED"

pub record LimitEntry : Type 0 where
  pub key : Bytes
  pub window : ℤ
  pub quota : ℤ
  pub mode : Bytes
  pub member : Bytes
  pub count : ℤ
  pub ttl : ℤ
  pub combo : Bytes
  pub kind : Bytes
  pub period : Bytes
  pub bucket : Bytes

pub record EvalResult : Type 0 where
  pub status : Bytes
  pub limited_key : Bytes

-- types.ActionContinue and types.ActionPause
pub data Action : Type 0 where
  action_continue action_pause : Action

-- One entry of the first pass, at what localWindowTotal answers; `others` is the rest of the loop.
unfoldable pub check_verdict :
    LimitEntry → Program Bytes (Option Bytes) → Option ℤ → Program Bytes (Option Bytes)
check_verdict e others none = others
check_verdict e others (some total) = if le64 e.quota total then ret (some e.key) else others

-- The first pass: the key of the first entry that is over its quota.
unfoldable pub check_pass : ℤ → List LimitEntry → Program Bytes (Option Bytes)
unfolding check_verdict
check_pass now [] = ret none
check_pass now (e ∷ rest) =
    let others = check_pass now rest in
    if eqb e.mode mode_add
    then others
    else local_window_total e.key now e.window >>= check_verdict e others

-- The second pass.
unfoldable pub write_pass : ℤ → List LimitEntry → Program Bytes (Unit {0})
write_pass now [] = ret tt
write_pass now (e ∷ rest) =
    let others = write_pass now rest in
    if eqb e.mode mode_check
    then others
    else local_add_entry e.key now e.count e.window >>= λ _. others

abbrev pub limited_at : Bytes → EvalResult × Action
limited_at key = (record { status = lua_limited_reply; limited_key = key }, action_pause)

abbrev pub passed : EvalResult × Action
passed = (record { status = lua_success_reply; limited_key = [] }, action_continue)

abbrev pub after_check : ℤ → List LimitEntry → Option Bytes → Program Bytes (EvalResult × Action)
after_check now entries (some key) = ret (limited_at key)
after_check now entries none = write_pass now entries >>= λ _. ret passed

unfoldable pub batch_eval : ℤ → List LimitEntry → Program Bytes (EvalResult × Action)
unfolding check_pass write_pass
batch_eval now entries = check_pass now entries >>= after_check now entries
