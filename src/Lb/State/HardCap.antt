-- ===== src/Lb/State/HardCap.antt =====
-- Any number of workers that reserve and release on one target, their host calls in any order.
use gpustack_higress_plugin.Common.{
  ℕ, ◌≤◌, ◌<◌, Bytes, Bool, true, false, ◌≡◌, refl, none, inl, inr, List, [], ◌∷◌, ◌++◌, map, ℤ,
  pos, arith, All, Bool-cases, ◌==◌, if◌then◌else◌, subst, length, length-append, length-keep, eq64,
}
use gpustack_higress_plugin.Host.{
  Reply, found, broken, Status, SharedData, Program, ret, get_shared, set_shared, ◌>>=◌,
}
use gpustack_higress_plugin.Host.Interleave.{
  Follows, Known, Reach, Step, start, next, here, reads, write_fails,
}
use gpustack_higress_plugin.Host.Interleave.Atomic.{Established, Changes, Step-Changes, Reach-keeps}
use gpustack_higress_plugin.Lb.State.{
  Blob, decode_inflight, inflight_key, prune_starts, is_full, remove_first, reserve_inflight,
  remove_inflight, reserve_attempts, reserve_loaded, Reserved, granted, inflight_of, inflight_doc,
  settled,
}
use gpustack_higress_plugin.Lb.State.Run.{not_zero}
use gpustack_higress_plugin.Lb.State.Atomic.{
  Job, reserve, release, Applies, Updates, reserve_inflight-Keeps, remove_inflight-Keeps,
}

-- The routine of a job; its result says whether an entry was granted.
abbrev pub routine : Bytes → ℤ → Job → Program Blob Bool
routine key max_run (reserve now_ms max_age_ms) =
    reserve_inflight key max_run now_ms max_age_ms >>= λ r. ret r.reserved
routine key max_run (release start_ms now_ms max_age_ms) =
    remove_inflight key start_ms now_ms max_age_ms >>= λ _. ret false

Follows-map :
    {A B : Type 0} (k : Bytes) (Op : Blob → Blob → Type 0) (p : Program Blob A) (f : A → B)
    (known : Known Blob)
    → Follows k Op p known
    → Follows k Op (p >>= λ a. ret (f a)) known
Follows-map k Op (ret a) f known h = tt
Follows-map k Op (get_shared j g) f known (h, b, o) = (
  λ v c same nonzero. Follows-map k Op (g (found v c)) f _ (h v c same nonzero),
  Follows-map k Op (g broken) f none b,
  λ r other. Follows-map k Op (g r) f none (o r other),
)
Follows-map k Op (set_shared j v c g) f known (h, o) = (h, λ r. Follows-map k Op (g r) f none (o r))

routine-Follows :
    (key : Bytes) (max_run : ℤ) (Op : Blob → Blob → Type 0) (job : Job)
    → ((v w : Blob) → Applies max_run job v w → Op v w)
    → Follows (inflight_key key) Op (routine key max_run job) none
routine-Follows key max_run Op (reserve now_ms max_age_ms) covers =
    Follows-map _ _ (reserve_inflight key max_run now_ms max_age_ms) _ none
      (reserve_inflight-Keeps (inflight_key key) max_run Op key now_ms max_age_ms covers)
routine-Follows key max_run Op (release start_ms now_ms max_age_ms) covers =
    Follows-map _ _ (remove_inflight key start_ms now_ms max_age_ms) _ none
      (remove_inflight-Keeps (inflight_key key) max_run Op key start_ms now_ms max_age_ms covers)

routines-Follow :
    (key : Bytes) (max_run : ℤ) (Op : Blob → Blob → Type 0) (jobs : List Job)
    → ((v w : Blob) → Updates max_run jobs v w → Op v w)
    → All (λ p. Follows (inflight_key key) Op p none) (map (routine key max_run) jobs)
routines-Follow key max_run Op [] covers = tt
routines-Follow key max_run Op (job ∷ jobs) covers = (
  routine-Follows key max_run Op job (λ v w h. covers v w (inl h)),
  routines-Follow key max_run Op jobs (λ v w h. covers v w (inr h)),
)

-- How many entries a value holds.
abbrev pub entries : Blob → ℕ
entries v = length (decode_inflight v).starts

length-remove_first : (start_ms : ℤ) (l : List ℤ) → length (remove_first start_ms l).0 ≤ length l
unfolding remove_first
length-remove_first start_ms [] = omega arith
length-remove_first start_ms (ts ∷ l) = elim (Bool-cases (eq64 ts start_ms)) [
  | inl e ↦ rw e (omega arith)
  | inr e ↦ rw e (omega (arith, length-remove_first start_ms l))
]

length-prune_starts : (l : List ℤ) (n a : ℤ) → length (prune_starts l n a) ≤ length l
unfolding prune_starts
length-prune_starts l n a = length-keep _ l

not_full : (limit : ℕ) (l : List ℤ) → 0 < limit → is_full (pos limit) l ≡ false → length l < limit
not_full limit l h e = ground arith

Applies-entries :
    (limit : ℕ) (job : Job) (v w : Blob)
    → 0 < limit
    → Applies (pos limit) job v w
    → entries v ≤ limit
    → entries w ≤ limit
Applies-entries limit (reserve now_ms max_age_ms) v w h (room, e) fits =
    let live = prune_starts (decode_inflight v).starts now_ms max_age_ms in
    rw e (omega (arith, length-append {0} live (now_ms ∷ []), not_full limit live h room))
Applies-entries limit (release start_ms now_ms max_age_ms) v w h e fits =
    let live = prune_starts (decode_inflight v).starts now_ms max_age_ms in
    rw e (
      omega (
        arith,
        length-remove_first start_ms live,
        length-prune_starts (decode_inflight v).starts now_ms max_age_ms,
      ))

Updates-entries :
    (limit : ℕ) (jobs : List Job) (v w : Blob)
    → 0 < limit
    → Updates (pos limit) jobs v w
    → entries v ≤ limit
    → entries w ≤ limit
Updates-entries limit [] v w h e fits = elim e [ ]
Updates-entries limit (job ∷ jobs) v w h (inl e) fits = Applies-entries limit job v w h e fits
Updates-entries limit (job ∷ jobs) v w h (inr e) fits = Updates-entries limit jobs v w h e fits

module _ (H : SharedData Blob) (key : Bytes) where
  open H use {State, read}

  -- On a target whose key exists, whatever the order of the host calls of any number of workers
  -- that reserve or release on it, and whichever calls fail: each call leaves the value as it is,
  -- or applies to the list that stands there the whole reservation or the whole removal of one of
  -- the workers' jobs, at that job's own times.
  pub concurrent_writes_atomic :
      (max_run : ℤ) (jobs : List Job) {s t u : State} {qs rs : List (Program Blob Bool)}
      → Established H (inflight_key key) (Updates max_run jobs) s
      → Reach H s (map (routine key max_run) jobs) t qs
      → Step H t u qs rs
      → Changes H (inflight_key key) (Updates max_run jobs) t u
  concurrent_writes_atomic max_run jobs e r st =
      Step-Changes H (inflight_key key) (Updates max_run jobs) e
        (routines-Follow key max_run (Updates max_run jobs) jobs (λ v w h. h)) r st

  -- On such a target with a cap above 0 that holds at most as many entries as its cap, no order of
  -- the workers' host calls leads to more entries than the cap.
  pub concurrent_entries-le-limit :
      (limit : ℕ) (jobs : List Job) {s t : State} {qs : List (Program Blob Bool)} (v w : Blob)
      (c n : ℕ)
      → 0 < limit
      → read s (inflight_key key) ≡ found v c
      → entries v ≤ limit
      → Reach H s (map (routine key (pos limit)) jobs) t qs
      → read t (inflight_key key) ≡ found w n
      → entries w ≤ limit
  concurrent_entries-le-limit limit jobs v w c n positive stored fits r later =
      Reach-keeps H (inflight_key key) (Updates (pos limit) jobs) (λ x. entries x ≤ limit)
        (λ x y op. Updates-entries limit jobs x y positive op) (v, c, stored)
        (routines-Follow key (pos limit) (Updates (pos limit) jobs) jobs (λ x y h. h))
        (λ x m e. let same : v ≡ x = cc (stored, e) in subst (λ y. entries y ≤ limit) same fits) r w
        n later

  -- On an existing key with room under the cap: a write that fails for another reason than the cas
  -- number counts as done, so a reservation may be granted with nothing recorded.
  pub granted_unrecorded :
      (max_run now_ms max_age_ms : ℤ) (s : State) (v : Blob) (c : ℕ)
      → read s (inflight_key key) ≡ found v c
      → is_full max_run (prune_starts (decode_inflight v).starts now_ms max_age_ms) ≡ false
      → Reach H s (routine key max_run (reserve now_ms max_age_ms) ∷ []) s (ret true ∷ [])
  unfolding reserve_inflight reserve_attempts reserve_loaded
  granted_unrecorded max_run now_ms max_age_ms s v c stored room =
      let k = inflight_key key in
      let live = prune_starts (decode_inflight v).starts now_ms max_age_ms in
      let again = reserve_attempts 9 k max_run now_ms max_age_ms in
      let unwrap : Reserved → Program Blob Bool = λ r. ret r.reserved in
      let after_read : Reply Blob → Program Blob Bool =
        λ r. (reserve_loaded k max_run now_ms max_age_ms again (inflight_of r) >>= unwrap) in
      let after_write : Status → Program Blob Bool =
        λ r. ((if settled r then ret granted else again) >>= unwrap) in
      let present : (c == 0) ≡ false = not_zero c (H.read_issued s k v c stored).0 in
      let writing : after_read (read s k)
          ≡ set_shared k (inflight_doc (record { starts = live ++ now_ms ∷ [] })) c after_write =
        rw (stored, present, room) in
      next (next start (here (reads k after_read refl refl refl)))
        (here (write_fails k _ c after_write writing refl refl))
