-- ===== src/Host/Confined.antt =====
-- Routines that write to one key only.
use gpustack_higress_plugin.Common.{Bytes, ◌≡◌, ◌≢◌, refl, ◌∙◌}
use gpustack_higress_plugin.Host.Store.{Reply, Status, SharedData}
use gpustack_higress_plugin.Host.Calls.{Program, ret, get_shared, set_shared, run}

module _ {V : Type 0} (k : Bytes) where
  abbrev pub Confined : {A : Type 0} → Program V A → Type 0
  Confined (ret a) = Unit
  Confined (get_shared j f) = (r : Reply V) → Confined (f r)
  Confined (set_shared j v c f) = (j ≡ k) × ((r : Status) → Confined (f r))

  pub run-Confined :
      (H : SharedData V) {A : Type 0} (p : Program V A) (s : SharedData.State H) (j : Bytes)
      → Confined p
      → j ≢ k
      → SharedData.read H (run H p s).1 j ≡ SharedData.read H s j
  unfolding run
  run-Confined H (ret a) s j h other = refl
  run-Confined H (get_shared i f) s j h other =
      run-Confined H (f (SharedData.read H s i)) s j (h (SharedData.read H s i)) other
  run-Confined H (set_shared i v c f) s j (same, h) other =
      run-Confined H (f (SharedData.write H s i v c).0) (SharedData.write H s i v c).1 j
        (h (SharedData.write H s i v c).0) other
      ∙ SharedData.write_others H s i j v c (λ e. other (e ∙ same))
