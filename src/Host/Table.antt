-- ===== src/Host/Table.antt =====
-- A shared data that meets the laws: the log of its writes, newest first. A value's cas number is
-- its place in the log.
use gpustack_higress_plugin.Common.{
  ℕ, suc, ◌≤◌, ◌<◌, Bytes, Bool, true, false, ◌≡◌, ◌≢◌, refl, sym, inl, inr, List, [], ◌∷◌, arith,
  length, eqb, eqb_iff, eqb_refl, ◌==◌, ==_iff, Bool-cases, if◌then◌else◌,
}
use gpustack_higress_plugin.Host.Store.{
  Reply, found, missing, broken, Status, ok, cas_mismatch, SharedData,
}

abbrev pub Log : Type 0 → Type 0
Log V = List (Bytes × V)

eqb_of_ne : (k j : Bytes) → j ≢ k → eqb k j ≡ false
eqb_of_ne k j h = elim (Bool-cases (eqb k j)) [
  | inl e ↦ absurd (h (sym ((eqb_iff k j).0 e)))
  | inr e ↦ e
]

module _ {V : Type 0} where
  abbrev pub read_log : Log V → Bytes → Reply V
  read_log [] k = missing
  read_log ((j, v) ∷ log) k =
      let older = read_log log k in if eqb j k then found v (suc (length log)) else older

  abbrev pub accepts : Reply V → ℕ → Bool
  accepts (found v n) c = if c == 0 then true else n == c
  accepts missing c = c == 0
  accepts broken c = c == 0

  abbrev pub write_log : Log V → Bytes → V → ℕ → Status × Log V
  write_log s k v c = if accepts (read_log s k) c then (ok, (k, v) ∷ s) else (cas_mismatch, s)

  read_log_bounds :
      (s : Log V) (k : Bytes) (v : V) (c : ℕ) → read_log s k ≡ found v c → (0 < c) × (c ≤ length s)
  read_log_bounds [] k v c e = cc
  read_log_bounds ((j, w) ∷ s) k v c e = elim (Bool-cases (eqb j k)) [
    | inl same ↦ ground arith
    | inr other ↦ let h = read_log_bounds s k v c (rw other at e) in (h.0, omega (arith, h.1))
  ]

  pub accepts-zero : (r : Reply V) → accepts r 0 ≡ true
  accepts-zero (found v n) = refl
  accepts-zero missing = refl
  accepts-zero broken = refl

  pub accepts-found : (v : V) (c : ℕ) → accepts (found v c) c ≡ true
  accepts-found v c = ground arith

  pub found_of_accepts :
      (r : Reply V) (c : ℕ) → c ≢ 0 → accepts r c ≡ true → (w : V) × (r ≡ found w c)
  found_of_accepts (found w n) c h e = (w, ground arith)
  found_of_accepts missing c h e = absurd (h ((==_iff c 0).0 e))
  found_of_accepts broken c h e = absurd (h ((==_iff c 0).0 e))

  pub accepts_of_ok :
      (s : Log V) (k : Bytes) (v : V) (c : ℕ)
      → (write_log s k v c).0 ≡ ok
      → accepts (read_log s k) c ≡ true
  accepts_of_ok s k v c e = elim (Bool-cases (accepts (read_log s k) c)) [
    | inl h ↦ h
    | inr h ↦ let impossible : cas_mismatch ≡ ok = (rw h at e) in cc
  ]

  abbrev pub newest : (s : Log V) → ℕ
  newest s = suc (length s)

  pub stores :
      (s : Log V) (k : Bytes) (v : V) (c : ℕ)
      → (write_log s k v c).0 ≡ ok
      → (n : ℕ) × (read_log (write_log s k v c).1 k ≡ found v n) × ¬ ((0 < n) × (n ≤ length s))
  stores s k v c e = rw (accepts_of_ok s k v c e) (newest s, rw (eqb_refl k), λ h. omega (arith, h))

  pub keeps :
      (s : Log V) (k : Bytes) (v : V) (c : ℕ)
      → (write_log s k v c).0 ≢ ok
      → (write_log s k v c).1 ≡ s
  keeps s k v c h = elim (Bool-cases (accepts (read_log s k) c)) [
    | inl e ↦ absurd (h (rw e))
    | inr e ↦ rw e
  ]

  pub others :
      (s : Log V) (k j : Bytes) (v : V) (c : ℕ)
      → j ≢ k
      → read_log (write_log s k v c).1 j ≡ read_log s j
  others s k j v c h = elim (Bool-cases (accepts (read_log s k) c)) [
    | inl e ↦ rw (e, eqb_of_ne k j h)
    | inr e ↦ rw e
  ]

  pub grows :
      (s : Log V) (k : Bytes) (v : V) (c n : ℕ)
      → (0 < n) × (n ≤ length s)
      → (0 < n) × (n ≤ length (write_log s k v c).1)
  grows s k v c n h = elim (Bool-cases (accepts (read_log s k) c)) [
    | inl e ↦ rw e (h.0, omega arith)
    | inr e ↦ rw e h
  ]

  pub issued :
      (s : Log V) (k : Bytes) (v : V) (c : ℕ)
      → read_log s k ≡ found v c
      → (c ≢ 0) × (0 < c) × (c ≤ length s)
  issued s k v c e = let h = read_log_bounds s k v c e in (omega (arith, h.0), h.0, h.1)

abbrev pub table : (V : Type 0) → SharedData V
table V = record {
  State = Log V;
  read = read_log;
  write = write_log;
  Issued = λ s c. (0 < c) × (c ≤ length s);
  read_issued = λ s k v c e. let h = issued s k v c e in (h.0, (h.1, h.2));
  write_current = λ s k v w c e. rw e (rw (accepts-found w c));
  write_unconditional = λ s k v. rw (accepts-zero (read_log s k));
  write_compares = λ s k v c h e. found_of_accepts (read_log s k) c h (accepts_of_ok s k v c e);
  write_stores = stores;
  write_keeps = keeps;
  write_others = others;
  issued_grows = grows;
}
