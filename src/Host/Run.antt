-- ===== src/Host/Run.antt =====
-- Running routines one after the other.
use gpustack_higress_plugin.Common.{◌≡◌, refl}
use gpustack_higress_plugin.Host.Store.{SharedData}
use gpustack_higress_plugin.Host.Calls.{Program, ret, get_shared, set_shared, ◌>>=◌, run}

pub run-bind :
    {V A B : Type 0} (H : SharedData V) (p : Program V A) (f : A → Program V B)
    (s : SharedData.State H)
    → run H (p >>= f) s ≡ run H (f (run H p s).0) (run H p s).1
unfolding run
run-bind H (ret a) f s = refl
run-bind H (get_shared k g) f s = run-bind H (g (SharedData.read H s k)) f s
run-bind H (set_shared k v c g) f s =
    run-bind H (g (SharedData.write H s k v c).0) f (SharedData.write H s k v c).1
