-- ===== src/Lb/Flags/Decode.antt =====
-- isConnectivityFailure on the host's encoding of the flags.
use gpustack_higress_plugin.Common.{
  ℕ, zero, suc, ◌+◌, ◌*◌, ◌/◌, ◌%◌, ◌^◌, ◌<◌, bit_and, Bytes, ◌≡◌, ap, subst, ◌∙◌, not, some, [],
  ◌∷◌, ◌==◌, arith,
}
use native.Mathlib.Nat.{div-lt_iff_lt-mul, pow-suc, mod-eq_of_lt}
use gpustack_higress_plugin.Lb.Flags.{connectivity_failure_mask, le_uint, is_connectivity_failure}

-- A number in `k` bytes, the low byte first.
abbrev pub little_endian : ℕ → ℕ → Bytes
little_endian zero n = []
little_endian (suc k) n = n % 256 ∷ little_endian k (n / 256)

le_uint-little_endian : (k n : ℕ) → n < 256 ^ k → n < 2 ^ 64 → le_uint (little_endian k n) ≡ n
unfolding le_uint
le_uint-little_endian zero n h small = omega (arith, h)
le_uint-little_endian (suc k) n h small =
    let fewer : n / 256 < 256 ^ k =
      (div-lt_iff_lt-mul {k = 256} {x = n} {y = 256 ^ k} (omega arith)).1
        (subst (λ x. n < x) (pow-suc 256 k) h) in
    let below : n / 256 * 256 < 2 ^ 64 = omega (arith, small) in
    ap (λ v. v * 256 % 2 ^ 64 + n % 256)
      (le_uint-little_endian k (n / 256) fewer (omega (arith, small)))
    ∙ ap (λ v. v + n % 256) (mod-eq_of_lt below)
    ∙ (omega arith)

-- Flags that fit their bytes and 64 bits, the low byte first, count as a connectivity failure
-- exactly where they share a bit with the mask.
pub is_connectivity_failure-flags :
    (k flags : ℕ)
    → flags < 256 ^ suc k
    → flags < 2 ^ 64
    → is_connectivity_failure (some (little_endian (suc k) flags))
      ≡ not (bit_and flags connectivity_failure_mask == 0)
unfolding is_connectivity_failure
is_connectivity_failure-flags k flags h small =
    ap (λ v. not (bit_and v connectivity_failure_mask == 0))
      (le_uint-little_endian (suc k) flags h small)
