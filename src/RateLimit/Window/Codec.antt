-- ===== src/RateLimit/Window/Codec.antt =====
-- decodeEntries undoes encodeEntries, and localWindowTotal is the sum over the decoded entries.
use gpustack_higress_plugin.Common.{
  ℕ, zero, suc, ◌+◌, ◌*◌, ◌/◌, ◌%◌, ◌^◌, ◌<◌, Bytes, ◌≡◌, refl, ap, subst, ◌∙◌, List, [], ◌∷◌, ◌++◌,
  ℤ, pos, negsuc, add64, IsInt64, to_uint64, to_int64, arith, All, drop, length, if◌then◌else◌,
}
use native.Mathlib.Nat.{div-lt_iff_lt-mul, pow-suc}
use gpustack_higress_plugin.RateLimit.Window.{
  WindowEntry, put_bytes, read_bytes, put_int64, read_int64, encode_entries, entry_at, decode_from,
  decode_entries, total_from, is_recent,
}

read_bytes-snoc : (n b : ℕ) (l : Bytes) → read_bytes n (l ++ b ∷ []) ≡ read_bytes n l * 256 + b
unfolding read_bytes
read_bytes-snoc n b [] = refl
read_bytes-snoc n b (x ∷ l) = read_bytes-snoc (n * 256 + x) b l

read_bytes-put_bytes : (k n : ℕ) → n < 256 ^ k → read_bytes 0 (put_bytes k n) ≡ n
unfolding read_bytes
read_bytes-put_bytes zero n h = omega (arith, h)
read_bytes-put_bytes (suc k) n h =
    let small : n / 256 < 256 ^ k =
      (div-lt_iff_lt-mul {k = 256} {x = n} {y = 256 ^ k} (omega arith)).1
        (subst (λ x. n < x) (pow-suc 256 k) h) in
    read_bytes-snoc 0 (n % 256) (put_bytes k (n / 256))
    ∙ ap (λ q. q * 256 + n % 256) (read_bytes-put_bytes k (n / 256) small)
    ∙ (omega arith)

uint64_small : (a : ℤ) → to_uint64 a < 2 ^ 64
unfolding to_uint64
uint64_small (pos n) = ground arith
uint64_small (negsuc n) = ground arith

to_int64-to_uint64 : (a : ℤ) → IsInt64 a → to_int64 (to_uint64 a) ≡ a
unfolding to_uint64 to_int64
to_int64-to_uint64 (pos n) h = ground arith
to_int64-to_uint64 (negsuc n) h = ground arith

read_int64-put_int64 : (a : ℤ) (rest : Bytes) → IsInt64 a → read_int64 (put_int64 a ++ rest) ≡ a
unfolding read_int64
read_int64-put_int64 a rest h =
    ap to_int64 (read_bytes-put_bytes 8 (to_uint64 a) (uint64_small a)) ∙ to_int64-to_uint64 a h

-- The fields are int64 values.
abbrev pub IsEntry : WindowEntry → Type 0
IsEntry e = IsInt64 e.timestamp × IsInt64 e.count

entry_at-encode :
    (e : WindowEntry) (rest : Bytes)
    → IsEntry e
    → entry_at (put_int64 e.timestamp ++ (put_int64 e.count ++ rest)) ≡ e
entry_at-encode e rest (ht, hc) =
    ap (λ (t : ℤ). record { timestamp = t; count = read_int64 (put_int64 e.count ++ rest) })
      (read_int64-put_int64 e.timestamp (put_int64 e.count ++ rest) ht)
    ∙ ap (λ (c : ℤ). record { timestamp = e.timestamp; count = c })
        (read_int64-put_int64 e.count rest hc)

pub length-encode_entries : (l : List WindowEntry) → length (encode_entries l) ≡ 16 * length l
unfolding encode_entries
length-encode_entries [] = omega arith
length-encode_entries (e ∷ l) = omega (arith, length-encode_entries l)

decode_from-encode_entries :
    (l : List WindowEntry) → All IsEntry l → decode_from (length l) (encode_entries l) ≡ l
unfolding decode_from encode_entries
decode_from-encode_entries [] h = refl
decode_from-encode_entries (e ∷ l) (he, h) =
    ap (λ x. x ∷ decode_from (length l) (encode_entries l))
      (entry_at-encode e (encode_entries l) he)
    ∙ ap (λ r. e ∷ r) (decode_from-encode_entries l h)

-- Decoding what was encoded from entries with int64 fields gives the entries back.
pub decode_entries-encode_entries :
    (l : List WindowEntry) → All IsEntry l → decode_entries (encode_entries l) ≡ l
unfolding decode_entries
decode_entries-encode_entries l h =
    ap (λ n. decode_from n (encode_entries l)) (omega (arith, length-encode_entries l))
    ∙ decode_from-encode_entries l h

-- The sum of the counts after `cutoff`, as int64 addition has it.
abbrev pub sum_recent : ℤ → ℤ → List WindowEntry → ℤ
sum_recent cutoff total [] = total
sum_recent cutoff total (e ∷ l) =
    sum_recent cutoff (if is_recent cutoff e then add64 total e.count else total) l

pub total_from-decode_from :
    (n : ℕ) (buf : Bytes) (cutoff total : ℤ)
    → total_from n buf cutoff total ≡ sum_recent cutoff total (decode_from n buf)
unfolding total_from decode_from
total_from-decode_from zero buf cutoff total = refl
total_from-decode_from (suc n) buf cutoff total = total_from-decode_from n (drop 16 buf) cutoff _
