-- ===== src/ModelMapper/Sorted.antt =====
-- The entries of a mapping, sorted by key.
use gpustack_higress_plugin.Common.{
  ◌≡◌, refl, ap, ◌∙◌, inl, inr, Bytes, true, false, Option, none, some, List, [], ◌∷◌, All, eqb,
  eqb_iff, lookup, map, Bool-cases, if◌then◌else◌, arith,
}
use gpustack_higress_plugin.Lb.Context.{less_bytes, insert_key, sort_keys, or_else}
use gpustack_higress_plugin.ModelMapper.{insert_entry, sort_entries}

abbrev pub Entry : Type 0
Entry = Bytes × Bytes

-- The keys of a JSON object are distinct.
abbrev pub IsDistinct : List Entry → Type 0
IsDistinct [] = Unit
IsDistinct (e ∷ rest) = All (λ f. eqb e.0 f.0 ≡ false) rest × IsDistinct rest

All-insert_entry :
    (P : Entry → Type 0) (e : Entry) (l : List Entry) → P e → All P l → All P (insert_entry e l)
All-insert_entry P e [] h all = (h, tt)
All-insert_entry P e (f ∷ l) h all = elim (Bool-cases (less_bytes f.0 e.0)) [
  | inl before ↦ rw before (all.0, All-insert_entry P e l h all.1)
  | inr behind ↦ rw behind (h, all)
]

pub All-sort_entries : (P : Entry → Type 0) (l : List Entry) → All P l → All P (sort_entries l)
All-sort_entries P [] all = tt
All-sort_entries P (e ∷ l) all =
    All-insert_entry P e (sort_entries l) all.0 (All-sort_entries P l all.1)

pub sort_keys-map :
    (l : List Entry) → sort_keys (map (λ e. e.0) l) ≡ map (λ e. e.0) (sort_entries l)
unfolding sort_keys insert_key
sort_keys-map [] = refl
sort_keys-map (e ∷ l) = ap (insert_key e.0) (sort_keys-map l) ∙ insert_key-map e (sort_entries l)
  where
    insert_key-map :
        (e : Entry) (l : List Entry)
        → insert_key e.0 (map (λ f. f.0) l) ≡ map (λ f. f.0) (insert_entry e l)
    insert_key-map e [] = refl
    insert_key-map e (f ∷ l) = elim (Bool-cases (less_bytes f.0 e.0)) [
      | inl before ↦ rw before (ap (λ k. f.0 ∷ k) (insert_key-map e l))
      | inr behind ↦ rw behind refl
    ]

-- The value of the last entry with the key.
abbrev pub last_value : Bytes → List Entry → Option Bytes
last_value k [] = none
last_value k (e ∷ rest) = or_else (last_value k rest) (if eqb e.0 k then some e.1 else none)

pub or_else-none : (o : Option Bytes) → or_else o none ≡ o
or_else-none none = refl
or_else-none (some v) = refl

pub or_else_assoc : (a b c : Option Bytes) → or_else (or_else a b) c ≡ or_else a (or_else b c)
or_else_assoc none b c = refl
or_else_assoc (some v) b c = refl

other_key : (a b k : Bytes) → eqb a b ≡ false → eqb a k ≡ true → eqb b k ≡ false
other_key a b k h same = ground (arith, eqb_iff a b, eqb_iff a k, eqb_iff b k)

last_value-none :
    (e : Entry) (k : Bytes) (l : List Entry)
    → eqb e.0 k ≡ true
    → All (λ f. eqb e.0 f.0 ≡ false) l
    → last_value k l ≡ none
last_value-none e k [] same all = refl
last_value-none e k (f ∷ l) same all =
    rw (last_value-none e k l same all.1, other_key e.0 f.0 k all.0 same) refl

last_value-insert_entry :
    (k : Bytes) (e : Entry) (l : List Entry)
    → All (λ f. eqb e.0 f.0 ≡ false) l
    → last_value k (insert_entry e l) ≡ (if eqb e.0 k then some e.1 else last_value k l)
last_value-insert_entry k e [] all = refl
last_value-insert_entry k e (f ∷ l) all = elim (Bool-cases (eqb e.0 k)) [
  | inl same ↦ elim (Bool-cases (less_bytes f.0 e.0)) [
    | inl before ↦ rw (before, same) (rw (last_value-insert_entry k e l all.1) (rw same refl))
    | inr behind ↦ rw (behind, last_value-none e k (f ∷ l) same all, same) refl
  ]
  | inr other ↦ elim (Bool-cases (less_bytes f.0 e.0)) [
    | inl before ↦ rw (before, other) (rw (last_value-insert_entry k e l all.1) (rw other refl))
    | inr behind ↦ rw (behind, other) (or_else-none (last_value k (f ∷ l)))
  ]
]

pub last_value-sort_entries :
    (k : Bytes) (l : List Entry) → IsDistinct l → last_value k (sort_entries l) ≡ lookup k l
last_value-sort_entries k [] h = refl
last_value-sort_entries k (e ∷ l) h =
    last_value-insert_entry k e (sort_entries l) (All-sort_entries (λ f. eqb e.0 f.0 ≡ false) l h.0)
    ∙ ap (λ o. if eqb e.0 k then some e.1 else o) (last_value-sort_entries k l h.1)
