-- ===== src/Lb/Flags.antt =====
-- extensions/gpustack-lb/health.go: the response flags that count as a connectivity failure.
pub mod Decode
use gpustack_higress_plugin.Common.{
  ℕ, ◌+◌, ◌*◌, ◌%◌, ◌^◌, bit_and, Bytes, Bool, true, false, not, Option, none, some, List, [], ◌∷◌,
  ◌==◌,
}

-- UH, UF, UC and NC, and their sum, since no two share a bit
abbrev pub connectivity_failure_mask : ℕ
connectivity_failure_mask = 2 ^ 1 + 2 ^ 5 + 2 ^ 6 + 2 ^ 24

-- v<<8 | b on uint64: the low byte of v<<8 is clear, so the bitwise or with a byte is a sum.
unfoldable pub le_uint : Bytes → ℕ
le_uint [] = 0
le_uint (b ∷ rest) = le_uint rest * 256 % 2 ^ 64 + b

-- At the property `response.flags`; `none` is an error.
unfoldable pub is_connectivity_failure : Option Bytes → Bool
unfolding le_uint
is_connectivity_failure none = false
is_connectivity_failure (some []) = false
is_connectivity_failure (some (b ∷ rest)) =
    not (bit_and (le_uint (b ∷ rest)) connectivity_failure_mask == 0)
