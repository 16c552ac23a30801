-- ===== src/Common/Decimal.antt =====
-- strconv.FormatInt(n, 10) and strconv.ParseInt(s, 10, 64).
use gpustack_higress_plugin.Common.Tests.{ltb, ltb→lt, leb, ◌==◌, if◌then◌else◌, Bool-cases}
use gpustack_higress_plugin.Common.Text.{Bytes}
use gpustack_higress_plugin.Common.Int64.{ℤ, pos, negsuc, IsInt64}
use Prim.Native.Nat.{ℕ, zero, suc, ◌+◌, ◌-◌, ◌*◌, ◌/◌, ◌%◌, ◌^◌, ◌<◌}
use mathlib.Core.Path.{◌≡◌, refl, ap, ◌∙◌}
use native.Mathlib.Nat.{pow-suc}
use mathlib.Core.Logic.{inl, inr, ◌≢◌}
use mathlib.Core.Bool.{Bool, true, false, ◌&&◌}
use mathlib.Core.Option.{Option, none, some}
use mathlib.Core.List.{[], ◌∷◌}
use native.Mathlib.Omega.{arith}

-- The digits of n in front of a text; `fuel` bounds their number.
abbrev digits_onto : ℕ → ℕ → Bytes → Bytes
digits_onto zero n out = out
digits_onto (suc fuel) n out =
    let digit = b'0' + n % 10 in
    let more = digits_onto fuel (n / 10) (digit ∷ out) in if ltb n 10 then digit ∷ out else more

-- Every uint64 has at most 20 digits.
unfoldable pub format_nat : ℕ → Bytes
format_nat n = digits_onto 20 n []

unfoldable pub format_int : ℤ → Bytes
unfolding format_nat
format_int (pos n) = format_nat n
format_int (negsuc n) = b'-' ∷ format_nat (suc n)

abbrev read_digits : ℕ → Bytes → Option ℕ
read_digits acc [] = some acc
read_digits acc (c ∷ s) =
    let rest = read_digits (acc * 10 + (c - b'0')) s in
    if leb b'0' c && leb c b'9' then rest else none

-- The digits of a text that has some.
unfoldable pub parse_nat : Bytes → Option ℕ
parse_nat [] = none
parse_nat (c ∷ s) = read_digits 0 (c ∷ s)

abbrev in_range : Bool → Option ℕ → Option ℤ
in_range negative none = none
in_range false (some n) = if ltb n (2 ^ 63) then some (pos n) else none
in_range true (some zero) = some (pos 0)
in_range true (some (suc n)) = if ltb n (2 ^ 63) then some (negsuc n) else none

-- `none` stands for an error.
unfoldable pub parse_int : Bytes → Option ℤ
unfolding parse_nat
parse_int [] = none
parse_int (c ∷ s) =
    if c == b'-'
    then in_range true (parse_nat s)
    else if c == b'+'
    then in_range false (parse_nat s)
    else in_range false (parse_nat (c ∷ s))

is_digit : (n : ℕ) → (leb b'0' (b'0' + n % 10) && leb (b'0' + n % 10) b'9') ≡ true
is_digit n = ground arith

digit_value : (acc n : ℕ) → acc * 10 + (b'0' + n % 10 - b'0') ≡ acc * 10 + n % 10
digit_value acc n = omega arith

read_digits-digit :
    (acc n : ℕ) (out : Bytes)
    → read_digits acc ((b'0' + n % 10) ∷ out) ≡ read_digits (acc * 10 + n % 10) out
read_digits-digit acc n out = rw (is_digit n, digit_value acc n)

read_digits-digits_onto :
    (fuel n : ℕ) (out : Bytes)
    → n < 10 ^ fuel
    → read_digits 0 (digits_onto fuel n out) ≡ read_digits n out
read_digits-digits_onto zero n out h = ap (λ m. read_digits m out) (omega arith)
read_digits-digits_onto (suc fuel) n out h = elim (Bool-cases (ltb n 10)) [
  | inl small ↦
      rw small
        (read_digits-digit 0 n out ∙ ap (λ m. read_digits m out) (omega (arith, ltb→lt n 10 small)))
  | inr large ↦ rw large (
      read_digits-digits_onto fuel (n / 10) ((b'0' + n % 10) ∷ out) (omega (arith, pow-suc 10 fuel))
      ∙ read_digits-digit (n / 10) n out
      ∙ ap (λ m. read_digits m out) (omega arith))
]

parse_nat_cons : (s : Bytes) → s ≢ [] → parse_nat s ≡ read_digits 0 s
unfolding parse_nat
parse_nat_cons [] h = absurd (h refl)
parse_nat_cons (c ∷ s) h = refl

digits_onto-ne-nil : (fuel n : ℕ) (d : ℕ) (out : Bytes) → digits_onto fuel n (d ∷ out) ≢ []
digits_onto-ne-nil zero n d out = cc
digits_onto-ne-nil (suc fuel) n d out = elim (Bool-cases (ltb n 10)) [
  | inl small ↦ rw small (cc)
  | inr large ↦ rw large (digits_onto-ne-nil fuel (n / 10) (b'0' + n % 10) (d ∷ out))
]

format_nat-ne-nil : (n : ℕ) → format_nat n ≢ []
unfolding format_nat
format_nat-ne-nil n = elim (Bool-cases (ltb n 10)) [
  | inl small ↦ rw small (cc)
  | inr large ↦ rw large (digits_onto-ne-nil 19 (n / 10) (b'0' + n % 10) [])
]

parse_nat-format_nat : (n : ℕ) → n < 2 ^ 64 → parse_nat (format_nat n) ≡ some n
parse_nat-format_nat n h =
    parse_nat_cons (format_nat n) (format_nat-ne-nil n)
    ∙ (unfold format_nat in read_digits-digits_onto 20 n [] (omega arith))

-- The first byte of a printed number is a digit, so it is taken for no sign.
unsigned_head :
    (s : Bytes) {n : ℕ} → parse_nat s ≡ some n → parse_int s ≡ in_range false (parse_nat s)
unfolding parse_int
unsigned_head [] h = cc
unsigned_head (c ∷ s) h = ground arith

-- Printing and parsing an int64 gives it back.
pub parse_int-format_int : (n : ℤ) → IsInt64 n → parse_int (format_int n) ≡ some n
unfolding format_int
parse_int-format_int (pos n) h =
    unsigned_head (format_nat n) (parse_nat-format_nat n (omega arith))
    ∙ (rw (parse_nat-format_nat n (omega arith)) (ground arith))
parse_int-format_int (negsuc n) h =
    unfold parse_int in rw (parse_nat-format_nat (suc n) (omega arith)) (ground arith)
