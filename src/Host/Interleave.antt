-- ===== src/Host/Interleave.antt =====
-- Worker threads over one shared data: a step is one host call of one worker, in any order, and any
-- call may fail. `Follows` is the discipline of a compare-and-swap loop on one key; every change
-- of that key by workers that follow it is one operation on the value that stands there.
pub mod Atomic
pub mod Alone
use gpustack_higress_plugin.Common.{ℕ, Bytes, ◌≡◌, ◌≢◌, Option, none, some, List, ◌∷◌}
use gpustack_higress_plugin.Host.Store.{Reply, found, broken, Status, failed, SharedData}
use gpustack_higress_plugin.Host.Calls.{Program, ret, get_shared, set_shared}

module _ {V : Type 0} (H : SharedData V) where
  open H use {State, read, write}

  -- One host call of one worker. A call may fail for a reason of the host's own.
  pub data Move {A : Type 0} (s : State) (p q : Program V A) (t : State) : Type 0 where
    reads :
        (j : Bytes) (f : Reply V → Program V A)
        → p ≡ get_shared j f
        → q ≡ f (read s j)
        → t ≡ s
        → Move s p q t
    read_fails :
        (j : Bytes) (f : Reply V → Program V A)
        → p ≡ get_shared j f
        → q ≡ f broken
        → t ≡ s
        → Move s p q t
    writes :
        (j : Bytes) (v : V) (c : ℕ) (f : Status → Program V A)
        → p ≡ set_shared j v c f
        → q ≡ f (write s j v c).0
        → t ≡ (write s j v c).1
        → Move s p q t
    write_fails :
        (j : Bytes) (v : V) (c : ℕ) (f : Status → Program V A)
        → p ≡ set_shared j v c f
        → q ≡ f failed
        → t ≡ s
        → Move s p q t

  -- One worker of the pool makes a call.
  pub data Step {A : Type 0} (s t : State) : List (Program V A) → List (Program V A) → Type 0 where
    here : {p q : Program V A} {ps : List (Program V A)} → Move s p q t → Step s t (p ∷ ps) (q ∷ ps)
    there :
        {p : Program V A} {ps qs : List (Program V A)} → Step s t ps qs → Step s t (p ∷ ps) (p ∷ qs)

  pub data Reach {A : Type 0} (s : State) (ps : List (Program V A))
      : State → List (Program V A) → Type 0 where
    start : Reach s ps s ps
    next :
        {t u : State} {qs rs : List (Program V A)}
        → Reach s ps t qs
        → Step t u qs rs
        → Reach s ps u rs

-- The discipline: a write to the key `k` carries a cas number that the worker has read together
-- with a value, and stores the outcome of an operation on that value. Other keys are free.
abbrev pub Known : Type 0 → Type 0
Known V = Option (V × ℕ)

module _ {V : Type 0} (k : Bytes) (Op : V → V → Type 0) where
  abbrev pub Allowed : Known V → V → ℕ → Type 0
  Allowed none v c = ⊥
  Allowed (some (w, n)) v c = (n ≡ c) × (c ≢ 0) × Op w v

  abbrev pub Follows : {A : Type 0} → Program V A → Known V → Type 0
  Follows (ret a) known = Unit
  Follows (get_shared j f) known =
      ((v : V) (c : ℕ) → j ≡ k → c ≢ 0 → Follows (f (found v c)) (some (v, c)))
      × Follows (f broken) none
      × ((r : Reply V) → j ≢ k → Follows (f r) none)
  Follows (set_shared j v c f) known =
      (j ≡ k → Allowed known v c) × ((r : Status) → Follows (f r) none)
