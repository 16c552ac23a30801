-- ===== src/RateLimit/Window/Total.antt =====
-- What localWindowTotal reads after a localAddEntry that no other worker interrupts.
use gpustack_higress_plugin.Common.{
  ℕ, ◌/◌, Bytes, Bool, true, ◌≡◌, ◌⊎◌, refl, sym, ap, ◌∙◌, inl, inr, Option, some, List, [], ◌∷◌,
  ◌++◌, ℤ, pos, lt64, add64, sub64, IsInt64, All, All-append, Bool-cases, keep, length,
}
use gpustack_higress_plugin.Host.{found, missing, SharedData, Program, run}
use gpustack_higress_plugin.RateLimit.Window.{
  WindowEntry, encode_entries, decode_entries, total_in, is_recent, with_entry, local_window_total,
  local_add_entry, add_attempts, add_loaded, Added, added,
}
use gpustack_higress_plugin.RateLimit.Window.Codec.{
  IsEntry, decode_entries-encode_entries, sum_recent, total_from-decode_from,
}

All-keep :
    (P : WindowEntry → Type 0) (p : WindowEntry → Bool) (l : List WindowEntry)
    → All P l
    → All P (keep p l)
All-keep P p [] h = tt
All-keep P p (e ∷ l) (he, h) = elim (Bool-cases (p e)) [
  | inl take_it ↦ rw take_it (he, All-keep P p l h)
  | inr drop_it ↦ rw drop_it (All-keep P p l h)
]

sum_recent-cons :
    (cutoff total : ℤ) (x : WindowEntry) (l : List WindowEntry)
    → is_recent cutoff x ≡ true
    → sum_recent cutoff total (x ∷ l) ≡ sum_recent cutoff (add64 total x.count) l
sum_recent-cons cutoff total x l h = rw h refl

-- Pruning by the same cutoff does not change the sum; a new entry adds its count.
sum_recent-with_entry :
    (cutoff total : ℤ) (l : List WindowEntry) (e : WindowEntry)
    → is_recent cutoff e ≡ true
    → sum_recent cutoff total (keep (is_recent cutoff) l ++ e ∷ [])
      ≡ add64 (sum_recent cutoff total l) e.count
sum_recent-with_entry cutoff total [] e h = rw h refl
sum_recent-with_entry cutoff total (x ∷ l) e h = elim (Bool-cases (is_recent cutoff x)) [
  | inl recent ↦ rw recent (
      sum_recent-cons cutoff total x (keep (is_recent cutoff) l ++ e ∷ []) recent
      ∙ sum_recent-with_entry cutoff (add64 total x.count) l e h)
  | inr old ↦ rw old (sum_recent-with_entry cutoff total l e h)
]

total_in-found :
    (buf : Bytes) (c : ℕ) (cutoff : ℤ)
    → total_in (found buf c) cutoff ≡ some (sum_recent cutoff (pos 0) (decode_entries buf))
unfolding total_in decode_entries
total_in-found buf c cutoff = ap some (total_from-decode_from (length buf / 16) buf cutoff (pos 0))

total_in-missing : (cutoff : ℤ) → total_in missing cutoff ≡ some (pos 0)
unfolding total_in
total_in-missing cutoff = refl

-- The entries that an add leaves.
abbrev pub added_to : ℤ → ℤ → ℤ → List WindowEntry → List WindowEntry
added_to cutoff now count l =
    keep (is_recent cutoff) l ++ record { timestamp = now; count = count } ∷ []

module _ (H : SharedData Bytes) (key : Bytes) where
  open H use {State, read, write, write_current, write_unconditional, write_stores, write_others}

  -- The key holds the bytes of these entries, or is absent where there are none.
  abbrev pub Holds : List WindowEntry → State → Type 0
  Holds l s =
      All IsEntry l
      × (((l ≡ []) × (read s key ≡ missing))
          ⊎ ((c : ℕ) × (read s key ≡ found (encode_entries l) c)))

  pub run-window_total :
      (now window : ℤ) (s : State)
      → run H (local_window_total key now window) s ≡ (total_in (read s key) (sub64 now window), s)
  unfolding run local_window_total
  run-window_total now window s = refl

  run-add_entry :
      (now count window : ℤ) (s : State)
      → run H (local_add_entry key now count window) s
        ≡ run H
            (add_loaded key
              (sub64 now window)
              now
              count
              (add_attempts 9 key (sub64 now window) now count)
              (read s key))
            s
  unfolding run local_add_entry add_attempts
  run-add_entry now count window s = refl

  run-add_found :
      (now count cutoff : ℤ) (s : State) (again : Program Bytes Added) (buf : Bytes) (c : ℕ)
      → read s key ≡ found buf c
      → run H (add_loaded key cutoff now count again (found buf c)) s
        ≡ (added, (write s key (with_entry buf cutoff now count) c).1)
  unfolding run add_loaded
  run-add_found now count cutoff s again buf c stored =
      rw (write_current s key (with_entry buf cutoff now count) buf c stored, run) refl

  run-add_missing :
      (now count cutoff : ℤ) (s : State) (again : Program Bytes Added)
      → run H (add_loaded key cutoff now count again missing) s
        ≡ (added, (write s key (with_entry [] cutoff now count) 0).1)
  unfolding run add_loaded
  run-add_missing now count cutoff s again =
      rw (write_unconditional s key (with_entry [] cutoff now count), run) refl

  with_entry-encode :
      (cutoff now count : ℤ) (l : List WindowEntry)
      → All IsEntry l
      → with_entry (encode_entries l) cutoff now count
        ≡ encode_entries (added_to cutoff now count l)
  unfolding with_entry
  with_entry-encode cutoff now count l h =
      ap (λ m. encode_entries (added_to cutoff now count m)) (decode_entries-encode_entries l h)

  with_entry-empty :
      (cutoff now count : ℤ)
      → with_entry [] cutoff now count ≡ encode_entries (added_to cutoff now count [])
  unfolding encode_entries
  with_entry-empty cutoff now count = with_entry-encode cutoff now count [] tt

  -- An add goes through, and leaves the pruned entries and the new one.
  add_entry-Holds :
      (now count window : ℤ) (l : List WindowEntry) (s : State)
      → Holds l s
      → IsInt64 now
      → IsInt64 count
      → ((run H (local_add_entry key now count window) s).0 ≡ added)
        × Holds
            (added_to (sub64 now window) now count l)
            (run H (local_add_entry key now count window) s).1
  add_entry-Holds now count window l s (fine, there) hn hc =
      rw (run-add_entry now count window s) (by_place there)
    where
      cutoff : ℤ
      cutoff = sub64 now window

      again : Program Bytes Added
      again = add_attempts 9 key cutoff now count

      all_fine : All IsEntry (added_to cutoff now count l)
      all_fine =
          All-append IsEntry (keep (is_recent cutoff) l) (_ ∷ [])
            (All-keep IsEntry (is_recent cutoff) l fine) ((hn, hc), tt)

      by_place :
          ((l ≡ []) × (read s key ≡ missing))
            ⊎ ((c : ℕ) × (read s key ≡ found (encode_entries l) c))
          → ((run H (add_loaded key cutoff now count again (read s key)) s).0 ≡ added)
            × Holds
                (added_to cutoff now count l)
                (run H (add_loaded key cutoff now count again (read s key)) s).1
      by_place (inl (none_yet, absent)) =
          let (n, stored, _) =
            write_stores s key (with_entry [] cutoff now count) 0 (write_unconditional s key _) in
          let same : with_entry [] cutoff now count ≡ encode_entries (added_to cutoff now count l) =
            with_entry-empty cutoff now count
            ∙ ap (λ m. encode_entries (added_to cutoff now count m)) (sym none_yet) in
          rw (absent, run-add_missing now count cutoff s again)
            (refl, (all_fine, inr (n, stored ∙ ap (λ b. found b n) same)))
      by_place (inr (c, stored)) =
          let buf = encode_entries l in
          let (n, kept, _) =
            write_stores s key (with_entry buf cutoff now count) c
              (write_current s key _ buf c stored) in
          rw (stored, run-add_found now count cutoff s again buf c stored)
            (
              refl,
              (
                all_fine,
                inr (n, kept ∙ ap (λ b. found b n) (with_entry-encode cutoff now count l fine)),
              ),
            )

  -- The total of a window that holds some entries.
  pub window_total-Holds :
      (now window : ℤ) (l : List WindowEntry) (s : State)
      → Holds l s
      → (run H (local_window_total key now window) s).0
        ≡ some (sum_recent (sub64 now window) (pos 0) l)
  window_total-Holds now window l s (fine, inl (none_yet, absent)) =
      ap (λ (r : Option ℤ × State). r.0) (run-window_total now window s)
      ∙ ap (λ r. total_in r (sub64 now window)) absent
      ∙ total_in-missing (sub64 now window)
      ∙ ap (λ m. some (sum_recent (sub64 now window) (pos 0) m)) (sym none_yet)
  window_total-Holds now window l s (fine, inr (c, stored)) =
      ap (λ (r : Option ℤ × State). r.0) (run-window_total now window s)
      ∙ ap (λ r. total_in r (sub64 now window)) stored
      ∙ total_in-found (encode_entries l) c (sub64 now window)
      ∙ ap (λ m. some (sum_recent (sub64 now window) (pos 0) m))
          (decode_entries-encode_entries l fine)

  -- On a window that holds entries with int64 fields, an add of an int64 count at an int64 time,
  -- which is after the cutoff, with no other worker in between, goes through: the window then holds
  -- its entries after the cutoff and the new one, and a read at the same time and window finds the
  -- old total plus the count, by int64 addition. The total counts every entry after the cutoff, an
  -- entry later than the time of the read included.
  pub total_after_add :
      (now count window : ℤ) (l : List WindowEntry) (s : State)
      → Holds l s
      → IsInt64 now
      → IsInt64 count
      → lt64 (sub64 now window) now ≡ true
      → ((run H (local_add_entry key now count window) s).0 ≡ added)
        × Holds
            (added_to (sub64 now window) now count l)
            (run H (local_add_entry key now count window) s).1
        × ((run H
              (local_window_total key now window)
              (run H (local_add_entry key now count window) s).1).0
            ≡ some (add64 (sum_recent (sub64 now window) (pos 0) l) count))
  total_after_add now count window l s there hn hc inside =
      let (done, after) = add_entry-Holds now count window l s there hn hc in
      (
        done,
        after,
        window_total-Holds now window _ _ after
            ∙ ap some (sum_recent-with_entry (sub64 now window) (pos 0) l _ inside),
      )
