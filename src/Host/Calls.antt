-- ===== src/Host/Calls.antt =====
-- A routine as the host calls that it makes: each answer decides how it goes on.
use gpustack_higress_plugin.Common.{ℕ, Bytes}
use gpustack_higress_plugin.Host.Store.{Reply, Status, SharedData}

pub data Program (V A : Type 0) : Type 0 where
  ret : A → Program V A
  get_shared : Bytes → (Reply V → Program V A) → Program V A
  set_shared : Bytes → V → ℕ → (Status → Program V A) → Program V A

infixl 5 ◌>>=◌
abbrev pub ◌>>=◌ : {V A B : Type 0} → Program V A → (A → Program V B) → Program V B
ret a >>= k = k a
get_shared key f >>= k = get_shared key (λ r. f r >>= k)
set_shared key v cas f >>= k = set_shared key v cas (λ r. f r >>= k)

-- One call of the host.
abbrev pub ask : {V : Type 0} → Bytes → Program V (Reply V)
ask key = get_shared key ret

abbrev pub tell : {V : Type 0} → Bytes → V → ℕ → Program V Status
tell key v cas = set_shared key v cas ret

-- The routine alone, with no other worker in between.
module _ {V : Type 0} (H : SharedData V) where
  open H use {State, read, write}

  unfoldable pub run : {A : Type 0} → Program V A → State → A × State
  run (ret a) s = (a, s)
  run (get_shared key f) s = run (f (read s key)) s
  run (set_shared key v cas f) s = run (f (write s key v cas).0) (write s key v cas).1
