-- ===== src/Common/Text.antt =====
-- Go strings: sequences of bytes, with the tests of package strings that the plugins use.
use gpustack_higress_plugin.Common.Tests.{ltb, ◌==◌, if◌then◌else◌}
use gpustack_higress_plugin.Common.Lists.{length, drop}
use Prim.Native.Nat.{ℕ, suc, ◌-◌}
use Prim.Native.Char.{code}
use Prim.Native.String.{String}
use mathlib.Core.Path.{◌≡◌, refl}
use mathlib.Core.Logic.{◌↔◌}
use mathlib.Core.Bool.{Bool, true, false, ◌&&◌}
use mathlib.Core.Option.{Option, none, some}
use mathlib.Core.List.{List, [], ◌∷◌, ◌++◌}
use native.Mathlib.Omega.{arith}

abbrev pub Bytes : Type 0
Bytes = List ℕ

-- The bytes of an ASCII literal.
abbrev pub codes : String → Bytes
codes String.[] = []
codes (String.◌∷◌ c s) = code c ∷ codes s

-- a == b
abbrev pub eqb : Bytes → Bytes → Bool
eqb [] [] = true
eqb (a ∷ s) (b ∷ t) = a == b && eqb s t
eqb [] (b ∷ t) = false
eqb (a ∷ s) [] = false

pub eqb_iff : (s t : Bytes) → (eqb s t ≡ true) ↔ (s ≡ t)
eqb_iff [] [] = ground arith
eqb_iff [] (b ∷ t) = ground arith
eqb_iff (a ∷ s) [] = ground arith
eqb_iff (a ∷ s) (b ∷ t) = ground (arith, eqb_iff s t)

pub eqb_refl : (s : Bytes) → eqb s s ≡ true
eqb_refl s = (eqb_iff s s).1 refl

-- strings.HasPrefix
abbrev pub has_prefix : Bytes → Bytes → Bool
has_prefix s [] = true
has_prefix [] (p ∷ ps) = false
has_prefix (c ∷ s) (p ∷ ps) = c == p && has_prefix s ps

-- strings.HasSuffix: the last len(suffix) bytes are the suffix
abbrev pub has_suffix : Bytes → Bytes → Bool
has_suffix s p = if ltb (length s) (length p) then false else eqb (drop (length s - length p) s) p

-- strings.Count of a one-byte text
abbrev pub count_byte : ℕ → Bytes → ℕ
count_byte b [] = 0
count_byte b (c ∷ s) = let n = count_byte b s in if c == b then suc n else n

pub has_prefix_append : (p s : Bytes) → has_prefix (p ++ s) p ≡ true
has_prefix_append [] s = refl
has_prefix_append (a ∷ p) s = ground (arith, has_prefix_append p s)

-- The first result of strings.Cut at a one-byte separator.
abbrev pub cut_before : ℕ → Bytes → Bytes
cut_before b [] = []
cut_before b (c ∷ s) = let rest = cut_before b s in if c == b then [] else c ∷ rest

abbrev join_head : ℕ → List Bytes → List Bytes
join_head c [] = (c ∷ []) ∷ []
join_head c (part ∷ parts) = (c ∷ part) ∷ parts

-- strings.Split at a one-byte separator
abbrev pub split_byte : ℕ → Bytes → List Bytes
split_byte b [] = [] ∷ []
split_byte b (c ∷ s) = let rest = split_byte b s in if c == b then [] ∷ rest else join_head c rest

abbrev pub behind_byte : ℕ → Option (Bytes × Bytes) → Option (Bytes × Bytes)
behind_byte c none = none
behind_byte c (some (before, after)) = some (c ∷ before, after)

-- The text around the first such byte (strings.IndexByte); `none` where there is none.
abbrev pub cut_at : ℕ → Bytes → Option (Bytes × Bytes)
cut_at b [] = none
cut_at b (c ∷ s) = let rest = behind_byte c (cut_at b s) in if c == b then some ([], s) else rest

abbrev pub last_or : ℕ → ℕ → Bytes → Option (Bytes × Bytes) → Option (Bytes × Bytes)
last_or b c s (some (before, after)) = some (c ∷ before, after)
last_or b c s none = if c == b then some ([], s) else none

-- The text around the last such byte (strings.LastIndexByte).
abbrev pub cut_at_last : ℕ → Bytes → Option (Bytes × Bytes)
cut_at_last b [] = none
cut_at_last b (c ∷ s) = last_or b c s (cut_at_last b s)
