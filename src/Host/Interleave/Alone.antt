-- ===== src/Host/Interleave/Alone.antt =====
-- A worker may make all its calls in one go: runs of the pool from runs of single routines, in which
-- no call fails.
use gpustack_higress_plugin.Common.{◌≡◌, ◌≢◌, refl, List, ◌∷◌}
use gpustack_higress_plugin.Host.Store.{broken, ok, SharedData}
use gpustack_higress_plugin.Host.Calls.{Program, ret, get_shared, set_shared, run, ◌>>=◌}
use gpustack_higress_plugin.Host.Interleave.{
  Move, Step, here, there, reads, read_fails, writes, write_fails, Reach, start, next,
}

module _ {V : Type 0} (H : SharedData V) where
  open H use {State, read, write}

  -- No call of the program, run from the state without a break, fails.
  abbrev pub Succeeds : {A : Type 0} → Program V A → State → Type 0
  Succeeds (ret a) s = Unit
  Succeeds (get_shared k f) s = (read s k ≢ broken) × Succeeds (f (read s k)) s
  Succeeds (set_shared k v c f) s =
      ((write s k v c).0 ≡ ok) × Succeeds (f (write s k v c).0) (write s k v c).1

  pub Succeeds-map :
      {A B : Type 0} (p : Program V B) (f : B → A) (s : State)
      → Succeeds p s
      → Succeeds (p >>= λ b. ret (f b)) s
  Succeeds-map (ret b) f s h = tt
  Succeeds-map (get_shared k g) f s (readable, h) = (readable, Succeeds-map (g (read s k)) f s h)
  Succeeds-map (set_shared k v c g) f s (done, h) =
      (done, Succeeds-map (g (write s k v c).0) f (write s k v c).1 h)

module _ {V A : Type 0} (H : SharedData V) where
  open H use {State, read, write}

  -- The call does not fail, neither for a reason of the host's own nor by the answer of the shared
  -- data: a read finds the key or finds it missing, and a write is stored.
  abbrev MoveAnswered : {s : State} {p q : Program V A} {t : State} → Move H s p q t → Type 0
  MoveAnswered {s = s} (reads j f e e' e'') = read s j ≢ broken
  MoveAnswered (read_fails j f e e' e'') = ⊥
  MoveAnswered {s = s} (writes j v c f e e' e'') = (write s j v c).0 ≡ ok
  MoveAnswered (write_fails j v c f e e' e'') = ⊥

  abbrev StepAnswered : {s t : State} {ps qs : List (Program V A)} → Step H s t ps qs → Type 0
  StepAnswered (here m) = MoveAnswered m
  StepAnswered (there st) = StepAnswered st

  abbrev AllAnswered :
      {s : State} {ps : List (Program V A)} {t : State} {qs : List (Program V A)}
      → Reach H s ps t qs
      → Type 0
  AllAnswered start = Unit
  AllAnswered (next r st) = AllAnswered r × StepAnswered st

  -- A run of the pool in which no host call fails.
  abbrev pub Runs : State → List (Program V A) → State → List (Program V A) → Type 0
  Runs s ps t qs = (r : Reach H s ps t qs) × AllAnswered r

  pub Runs-trans :
      {s : State} {ps : List (Program V A)} {t : State} {qs : List (Program V A)} {u : State}
      {rs : List (Program V A)}
      → Runs s ps t qs
      → Runs t qs u rs
      → Runs s ps u rs
  Runs-trans h (start, tt) = h
  Runs-trans h (next r st, (hr, hst)) =
      let (r', hr') = Runs-trans h (r, hr) in (next r' st, (hr', hst))

  Runs-Step :
      {s : State} {ps : List (Program V A)} {t : State} {qs : List (Program V A)} {u : State}
      {rs : List (Program V A)} (st : Step H s t ps qs)
      → StepAnswered st
      → Runs t qs u rs
      → Runs s ps u rs
  Runs-Step st h r = Runs-trans (next start st, (tt, h)) r

  -- The first worker of the pool makes all its calls.
  pub run-Runs :
      (p : Program V A) (ps : List (Program V A)) (s : State)
      → Succeeds H p s
      → Runs s (p ∷ ps) (run H p s).1 (ret (run H p s).0 ∷ ps)
  unfolding run
  run-Runs (ret a) ps s h = (start, tt)
  run-Runs (get_shared k f) ps s (readable, h) =
      Runs-Step (here (reads k f refl refl refl)) readable (run-Runs (f (read s k)) ps s h)
  run-Runs (set_shared k v c f) ps s (done, h) =
      Runs-Step (here (writes k v c f refl refl refl)) done
        (run-Runs (f (write s k v c).0) ps (write s k v c).1 h)

  -- What the other workers of a pool do, with one more worker in front.
  pub Runs-behind :
      (p : Program V A) {s : State} {ps : List (Program V A)} {t : State} {qs : List (Program V A)}
      → Runs s ps t qs
      → Runs s (p ∷ ps) t (p ∷ qs)
  Runs-behind p (start, tt) = (start, tt)
  Runs-behind p (next r st, (hr, hst)) =
      let (r', hr') = Runs-behind p (r, hr) in (next r' (there st), (hr', hst))
