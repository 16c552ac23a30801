-- ===== src/Affinity/Prefix.antt =====
-- The bytes that are hashed tell the session key and the candidate's key apart.
use gpustack_higress_plugin.Common.{
  ℕ, zero, suc, ◌/◌, ◌%◌, ◌^◌, ◌<◌, ◌≡◌, refl, sym, ◌∙◌, Bytes, [], ◌∷◌, ◌++◌, length, arith,
}
use native.Mathlib.Nat.{div-lt_iff_lt-mul, pow-suc, mod-eq_of_lt}
use mathlib.Core.Path.{subst}
use gpustack_higress_plugin.Affinity.{put_uint, hash_input}

heads : {a b : ℕ} {s t : Bytes} → a ∷ s ≡ b ∷ t → a ≡ b
heads h = cc

tails : {a b : ℕ} {s t : Bytes} → a ∷ s ≡ b ∷ t → s ≡ t
tails h = cc

put_uint-inj :
    (k n m : ℕ) (s t : Bytes)
    → n < 256 ^ k
    → m < 256 ^ k
    → put_uint k n ++ s ≡ put_uint k m ++ t
    → (n ≡ m) × (s ≡ t)
put_uint-inj zero n m s t hn hm e = (omega (arith, hn, hm), e)
put_uint-inj (suc k) n m s t hn hm e =
    let fewer_n : n / 256 < 256 ^ k = fewer k n hn in
    let fewer_m : m / 256 < 256 ^ k = fewer k m hm in
    let (same, rest) = put_uint-inj k (n / 256) (m / 256) s t fewer_n fewer_m (tails e) in
    let low : n % 256 ≡ m % 256 = heads e in (omega (arith, same, low), rest)
  where
    fewer : (k n : ℕ) → n < 256 ^ suc k → n / 256 < 256 ^ k
    fewer k n h =
        (div-lt_iff_lt-mul {k = 256} {x = n} {y = 256 ^ k} (omega arith)).1
          (subst (λ x. n < x) (pow-suc 256 k) h)

append-inj : (s s' t t' : Bytes) → length s ≡ length s' → s ++ t ≡ s' ++ t' → (s ≡ s') × (t ≡ t')
append-inj [] [] t t' n e = (refl, e)
append-inj [] (b ∷ s') t t' n e = absurd (omega (arith, n))
append-inj (a ∷ s) [] t t' n e = absurd (omega (arith, n))
append-inj (a ∷ s) (b ∷ s') t t' n e =
    let (same, rest) = append-inj s s' t t' (omega (arith, n)) (tails e) in
    (rw (heads e, same) refl, rest)

-- Two pairs of a session key and a candidate's key that give the same bytes to hash are the same pair,
-- for session keys shorter than 2^64 bytes.
pub hash_input-inj :
    (session other cand_key other_key : Bytes)
    → length session < 2 ^ 64
    → length other < 2 ^ 64
    → hash_input session cand_key ≡ hash_input other other_key
    → (session ≡ other) × (cand_key ≡ other_key)
hash_input-inj session other cand_key other_key hs ho e =
    let short_s : length session % 2 ^ 64 ≡ length session = mod-eq_of_lt hs in
    let short_o : length other % 2 ^ 64 ≡ length other = mod-eq_of_lt ho in
    let (same, rest) =
      put_uint-inj 8 (length session % 2 ^ 64) (length other % 2 ^ 64) (session ++ cand_key)
        (other ++ other_key) (omega arith) (omega arith) e in
    append-inj session other cand_key other_key (sym short_s ∙ same ∙ short_o) rest
