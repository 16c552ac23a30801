-- ===== src/Host/Interleave/Atomic.antt =====
-- Workers that follow the discipline on a key change its value only by whole operations: the
-- compare-and-swap loop is atomic, whatever the order of the host calls and whichever of them fail.
use gpustack_higress_plugin.Common.{
  ℕ, Bytes, ◌≡◌, ◌≢◌, refl, sym, subst, ap, ◌∙◌, ◌⊎◌, inl, inr, none, some, List, [], ◌∷◌, All, eqb,
  eqb_iff, Bool-cases,
}
use gpustack_higress_plugin.Host.Store.{Reply, found, Status, ok, cas_mismatch, failed, SharedData}
use gpustack_higress_plugin.Host.Calls.{Program, get_shared, set_shared}
use gpustack_higress_plugin.Host.Interleave.{
  Move, reads, read_fails, writes, write_fails, Step, here, there, Reach, start, next, Known,
  Follows, Allowed,
}

pub Status-cases : (r : Status) → (r ≡ ok) ⊎ (r ≢ ok)
Status-cases ok = inl refl
Status-cases cas_mismatch = inr cc
Status-cases failed = inr cc

pub same_key : (j k : Bytes) → (j ≡ k) ⊎ (j ≢ k)
same_key j k = elim (Bool-cases (eqb j k)) [
  | inl e ↦ inl ((eqb_iff j k).0 e)
  | inr e ↦ inr (λ h. cc (e, (eqb_iff j k).1 h))
]

module _ {V : Type 0} (H : SharedData V) (k : Bytes) (Op : V → V → Type 0) where
  open H use {
    State, read, write, Issued, read_issued, write_compares, write_stores, write_keeps,
    write_others, issued_grows,
  }

  abbrev pub Established : State → Type 0
  Established s = (v : V) × (c : ℕ) × (read s k ≡ found v c)

  -- The value at the key stays, or one operation is applied to it.
  abbrev pub Changes : State → State → Type 0
  Changes s t =
      (read t k ≡ read s k)
      ⊎ ((v w : V) × (c n : ℕ) × (read s k ≡ found v c) × (read t k ≡ found w n) × Op v w)

  -- What a worker has read is the value that its cas number stands for.
  abbrev Agrees : State → Known V → Type 0
  Agrees s none = Unit
  Agrees s (some (v, c)) = Issued s c × ((w : V) → read s k ≡ found w c → w ≡ v)

  Agrees-write :
      (s : State) (j : Bytes) (v : V) (c : ℕ) (known : Known V)
      → Agrees s known
      → Agrees (write s j v c).1 known
  Agrees-write s j v c none h = tt
  Agrees-write s j v c (some (w, n)) h = (
    issued_grows s j v c n h.0,
    λ w' e. elim (Status-cases (write s j v c).0) [
      | inl done ↦ elim (same_key j k) [
        | inl same ↦
            let (m, stored, new) = write_stores s j v c done in
            absurd (new (subst (λ x. Issued s x) (cc (same, e, stored)) h.0))
        | inr other ↦ h.1 w' (sym (write_others s j k v c (λ x. other (sym x))) ∙ e)
      ]
      | inr undone ↦ h.1 w' (subst (λ t. read t k ≡ found w' n) (write_keeps s j v c undone) e)
    ],
  )

  -- A successful write to the key stores the outcome of an operation on the current value.
  Changes-done :
      (s : State) (v : V) (c : ℕ) (known : Known V)
      → Allowed k Op known v c
      → Agrees s known
      → (write s k v c).0 ≡ ok
      → Changes s (write s k v c).1
  Changes-done s v c none allowed h done = absurd allowed
  Changes-done s v c (some (w, n)) (same, nonzero, op) h done =
      let (u, current) = write_compares s k v c nonzero done in
      let (m, stored, _) = write_stores s k v c done in
      let e : u ≡ w = h.1 u (current ∙ ap (λ x. found u x) (sym same)) in
      inr (w, v, c, m, current ∙ ap (λ x. found x c) e, stored, op)

  Changes-write :
      (s : State) (j : Bytes) (v : V) (c : ℕ) (known : Known V)
      → (j ≡ k → Allowed k Op known v c)
      → Agrees s known
      → Changes s (write s j v c).1
  Changes-write s j v c known allowed h = elim (Status-cases (write s j v c).0) [
    | inl done ↦ elim (same_key j k) [
      | inl same ↦ rw same (Changes-done s v c known (allowed same) h (rw same at done))
      | inr other ↦ inl (write_others s j k v c (λ x. other (sym x)))
    ]
    | inr undone ↦ inl (ap (λ t. read t k) (write_keeps s j v c undone))
  ]

  -- A worker within the discipline: it may go on, and what it knows is true.
  abbrev IsSound : {A : Type 0} → State → Program V A → Type 0
  IsSound s p = (known : Known V) × Follows k Op p known × Agrees s known

  Changes-Established : {s t : State} → Changes s t → Established s → Established t
  Changes-Established (inl same) (v, c, e) = (v, c, same ∙ e)
  Changes-Established (inr (v, w, c, n, _, e, _)) h = (w, n, e)

  module _ {A : Type 0} where
    reads-IsSound :
        (s : State) (j : Bytes) (f : Reply V → Program V A)
        → Established s
        → IsSound s (get_shared j f)
        → IsSound s (f (read s j))
    reads-IsSound s j f (v, c, current) (known, follows, agrees) = elim (same_key j k) [
      | inl same ↦
          let (nonzero, issued) = read_issued s k v c current in
          let e : found v c ≡ read s j = cc (same, current) in
          (
            some (v, c),
            subst (λ r. Follows k Op (f r) (some (v, c))) e (follows.0 v c same nonzero),
            (issued, λ w x. cc (current, x)),
          )
      | inr other ↦ (none, follows.2 (read s j) other, tt)
    ]

    Move-IsSound :
        {s t : State} {p q : Program V A}
        → Move H s p q t
        → Established s
        → IsSound s p
        → IsSound t q × Changes s t
    Move-IsSound {s} (reads j f ep eq et) e h =
        rw (et, eq) (reads-IsSound s j f e (rw ep at h), inl refl)
    Move-IsSound {s} (read_fails j f ep eq et) e h =
        let (known, follows, agrees) : IsSound s (get_shared j f) = rw ep at h in
        rw (et, eq) ((none, follows.1, tt), inl refl)
    Move-IsSound {s} (writes j v c f ep eq et) e h =
        let (known, follows, agrees) : IsSound s (set_shared j v c f) = rw ep at h in
        rw (et, eq) ((none, follows.1 _, tt), Changes-write s j v c known follows.0 agrees)
    Move-IsSound {s} (write_fails j v c f ep eq et) e h =
        let (known, follows, agrees) : IsSound s (set_shared j v c f) = rw ep at h in
        rw (et, eq) ((none, follows.1 failed, tt), inl refl)

    -- The others keep their knowledge: a cas number that they hold is not given out again.
    Move-keeps-IsSound :
        {s t : State} {p q : Program V A} (r : Program V A)
        → Move H s p q t
        → IsSound s r
        → IsSound t r
    Move-keeps-IsSound r (reads j f ep eq et) h = rw et h
    Move-keeps-IsSound r (read_fails j f ep eq et) h = rw et h
    Move-keeps-IsSound {s} r (writes j v c f ep eq et) (known, follows, agrees) =
        rw et (known, follows, Agrees-write s j v c known agrees)
    Move-keeps-IsSound r (write_fails j v c f ep eq et) h = rw et h

    abbrev AllSound : State → List (Program V A) → Type 0
    AllSound s ps = All (λ p. IsSound s p) ps

    Move-AllSound :
        {s t : State} {p q : Program V A} (rs : List (Program V A))
        → Move H s p q t
        → AllSound s rs
        → AllSound t rs
    Move-AllSound [] m h = tt
    Move-AllSound (r ∷ rs) m (h, hs) = (Move-keeps-IsSound r m h, Move-AllSound rs m hs)

    Step-Move :
        {s t : State} {ps qs : List (Program V A)}
        → Step H s t ps qs
        → (p q : Program V A) × Move H s p q t
    Step-Move (here {p} {q} m) = (p, q, m)
    Step-Move (there st) = Step-Move st

    Step-AllSound :
        {s t : State} {ps qs : List (Program V A)}
        → Step H s t ps qs
        → Established s
        → AllSound s ps
        → AllSound t qs × Changes s t
    Step-AllSound (here {ps} m) e (h, hs) =
        let (sound, change) = Move-IsSound m e h in ((sound, Move-AllSound ps m hs), change)
    Step-AllSound (there {p} st) e (h, hs) =
        let (sounds, change) = Step-AllSound st e hs in
        let (_, _, m) = Step-Move st in ((Move-keeps-IsSound p m h, sounds), change)

    start-AllSound :
        (s : State) (ps : List (Program V A)) → All (λ p. Follows k Op p none) ps → AllSound s ps
    start-AllSound s [] h = tt
    start-AllSound s (p ∷ ps) (h, hs) = ((none, h, tt), start-AllSound s ps hs)

    Reach-AllSound :
        {s : State} {ps : List (Program V A)} {t : State} {qs : List (Program V A)}
        → Reach H s ps t qs
        → Established s
        → AllSound s ps
        → AllSound t qs × Established t
    Reach-AllSound start e h = (h, e)
    Reach-AllSound (next r st) e h =
        let (sound, est) = Reach-AllSound r e h in
        let (sounds, change) = Step-AllSound st est sound in
        (sounds, Changes-Established change est)

    -- In every run of workers that start within the discipline on a key that has a value, each
    -- further host call of any worker leaves the key's value and cas number alone or applies one
    -- operation to the value that stands there.
    pub Step-Changes :
        {s t u : State} {ps qs rs : List (Program V A)}
        → Established s
        → All (λ p. Follows k Op p none) ps
        → Reach H s ps t qs
        → Step H t u qs rs
        → Changes t u
    Step-Changes {s} {ps} e h r st =
        let (sound, est) = Reach-AllSound r e (start-AllSound s ps h) in
        (Step-AllSound st est sound).1

    -- What every operation keeps of the value at the key, every run keeps.
    pub Reach-keeps :
        (P : V → Type 0)
        → ((v w : V) → Op v w → P v → P w)
        → {s : State} {ps : List (Program V A)} {t : State} {qs : List (Program V A)}
        → Established s
        → All (λ p. Follows k Op p none) ps
        → ((v : V) (c : ℕ) → read s k ≡ found v c → P v)
        → Reach H s ps t qs
        → (v : V) (c : ℕ) → read t k ≡ found v c
        → P v
    Reach-keeps P keep e h first start v c x = first v c x
    Reach-keeps P keep e h first (next {t} {u} r st) v c x = elim (Step-Changes e h r st) [
      | inl same ↦ Reach-keeps P keep e h first r v c (sym same ∙ x)
      | inr (w, w', n, m, old, new, op) ↦
          subst P (cc (new, x)) (keep w w' op (Reach-keeps P keep e h first r w n old))
    ]
