-- ===== src/Auth/Marker/Text.antt =====
-- The markers that JSON carries unchanged: encoding/json replaces what is not UTF-8 in a string. The
-- test is utf8.ValidString of Go's library, as a decoder over the bytes.
use gpustack_higress_plugin.Common.{
  ℕ, zero, suc, ◌≡◌, refl, Bytes, Bool, true, false, Option, none, some, [], ◌∷◌, ltb, leb, ◌==◌,
  ◌&&◌, if◌then◌else◌,
}
use gpustack_higress_plugin.Auth.{MarkerClaims}

-- How many continuation bytes are to come, and the bounds of the next one.
record Expects : Type 0 where
  pending : ℕ
  lo : ℕ
  hi : ℕ

abbrev expects : ℕ → ℕ → ℕ → Option Expects
expects n lo hi = some (record { pending = n; lo = lo; hi = hi })

-- After a first byte: no overlong form, no surrogate, nothing above U+10FFFF.
abbrev after_first : ℕ → Option Expects
after_first b =
    if ltb b 128
    then expects 0 128 191
    else if leb 194 b && leb b 223
    then expects 1 128 191
    else if b == 224
    then expects 2 160 191
    else if b == 237
    then expects 2 128 159
    else if leb 225 b && leb b 239
    then expects 2 128 191
    else if b == 240
    then expects 3 144 191
    else if leb 241 b && leb b 243
    then expects 3 128 191
    else if b == 244
    then expects 3 128 143
    else none

abbrev after_next : ℕ → Expects → ℕ → Option Expects
after_next zero e b = after_first b
after_next (suc n) e b = if leb e.lo b && leb b e.hi then expects n 128 191 else none

abbrev is_text_from : Option Expects → Bytes → Bool
is_text_from none s = false
is_text_from (some e) [] = e.pending == 0
is_text_from (some e) (b ∷ s) = is_text_from (after_next e.pending e b) s

abbrev pub is_text : Bytes → Bool
is_text s = is_text_from (expects 0 128 191) s

abbrev pub IsText : MarkerClaims → Type 0
IsText claims =
    (is_text claims.id ≡ true)
    × (is_text claims.consumer ≡ true)
    × (is_text claims.model ≡ true)
    × (is_text claims.conn ≡ true)

-- Sequences of two and four bytes; an overlong form, a surrogate, a sequence that is cut off.
is_text_values :
    (is_text (b'a' ∷ 195 ∷ 169 ∷ []) ≡ true)
    × (is_text (240 ∷ 159 ∷ 152 ∷ 128 ∷ []) ≡ true)
    × (is_text (192 ∷ 128 ∷ []) ≡ false)
    × (is_text (237 ∷ 160 ∷ 128 ∷ []) ≡ false)
    × (is_text (226 ∷ 130 ∷ []) ≡ false)
is_text_values = (refl, refl, refl, refl, refl)
