-- ===== src/RateLimit/Window.antt =====
-- extensions/gpustack-rate-limit/backend.go: the sliding window of the local backend. Values of the
-- shared data are bytes; a function that calls the host is a `Program`; log lines are left out.
pub mod Codec
pub mod Total
use gpustack_higress_plugin.Common.{
  ℕ, zero, suc, ◌+◌, ◌*◌, ◌/◌, ◌%◌, Bytes, Bool, true, false, Option, none, some, List, [], ◌∷◌,
  ◌++◌, ℤ, pos, codes, lt64, le64, add64, sub64, to_uint64, to_int64, keep, take, drop, length, eqb,
  if◌then◌else◌,
}
use gpustack_higress_plugin.Host.{
  Reply, found, missing, broken, Status, ok, cas_mismatch, failed, Program, ret, ask, tell, ◌>>=◌,
}

pub record WindowEntry : Type 0 where
  pub timestamp : ℤ
  pub count : ℤ

-- binary.BigEndian: the `k` low bytes of a number, and the number of some bytes
abbrev pub put_bytes : ℕ → ℕ → Bytes
put_bytes zero n = []
put_bytes (suc k) n = put_bytes k (n / 256) ++ (n % 256) ∷ []

unfoldable pub read_bytes : ℕ → Bytes → ℕ
read_bytes n [] = n
read_bytes n (b ∷ rest) = read_bytes (n * 256 + b) rest

abbrev pub put_int64 : ℤ → Bytes
put_int64 a = put_bytes 8 (to_uint64 a)

-- int64(binary.BigEndian.Uint64(data))
unfoldable pub read_int64 : Bytes → ℤ
unfolding read_bytes to_int64
read_int64 buf = to_int64 (read_bytes 0 (take 8 buf))

unfoldable pub encode_entries : List WindowEntry → Bytes
unfolding to_uint64
encode_entries [] = []
encode_entries (e ∷ rest) = put_int64 e.timestamp ++ (put_int64 e.count ++ encode_entries rest)

abbrev pub entry_at : Bytes → WindowEntry
entry_at buf = record { timestamp = read_int64 buf; count = read_int64 (drop 8 buf) }

unfoldable pub decode_from : ℕ → Bytes → List WindowEntry
unfolding read_int64
decode_from zero buf = []
decode_from (suc n) buf = entry_at buf ∷ decode_from n (drop 16 buf)

unfoldable pub decode_entries : Bytes → List WindowEntry
unfolding decode_from
decode_entries buf = decode_from (length buf / 16) buf

-- The loop of localWindowTotal, which has len(data) / 16 rounds.
unfoldable pub total_from : ℕ → Bytes → ℤ → ℤ → ℤ
unfolding read_int64 add64
total_from zero buf cutoff total = total
total_from (suc n) buf cutoff total =
    total_from n (drop 16 buf) cutoff
      (if lt64 cutoff (read_int64 buf) then add64 total (read_int64 (drop 8 buf)) else total)

-- `none` is an error.
unfoldable pub total_in : Reply Bytes → ℤ → Option ℤ
unfolding total_from
total_in (found buf cas) cutoff = some (total_from (length buf / 16) buf cutoff (pos 0))
total_in missing cutoff = some (pos 0)
total_in broken cutoff = none

unfoldable pub local_window_total : Bytes → ℤ → ℤ → Program Bytes (Option ℤ)
unfolding total_in sub64
local_window_total key now window = do reply ← ask key; ret (total_in reply (sub64 now window))

abbrev pub local_max_cas_retries : ℕ
local_max_cas_retries = 10

-- nil, the host's error, and the error after the last retry
pub data Added : Type 0 where
  added host_error gave_up : Added

abbrev pub is_recent : ℤ → WindowEntry → Bool
is_recent cutoff e = lt64 cutoff e.timestamp

-- What one round of localAddEntry writes.
unfoldable pub with_entry : Bytes → ℤ → ℤ → ℤ → Bytes
unfolding encode_entries decode_entries
with_entry buf cutoff now count =
    encode_entries (
      keep (is_recent cutoff) (decode_entries buf)
      ++ record { timestamp = now; count = count } ∷ [])

abbrev pub after_write : Program Bytes Added → Status → Program Bytes Added
after_write again ok = ret added
after_write again cas_mismatch = again
after_write again failed = ret host_error

-- The body of localAddEntry's loop after its read; an absent key has no bytes and cas 0.
unfoldable pub add_loaded :
    Bytes → ℤ → ℤ → ℤ → Program Bytes Added → Reply Bytes → Program Bytes Added
unfolding with_entry
add_loaded key cutoff now count again (found buf cas) =
    tell key (with_entry buf cutoff now count) cas >>= after_write again
add_loaded key cutoff now count again missing =
    tell key (with_entry [] cutoff now count) 0 >>= after_write again
add_loaded key cutoff now count again broken = ret host_error

unfoldable pub add_attempts : ℕ → Bytes → ℤ → ℤ → ℤ → Program Bytes Added
unfolding add_loaded
add_attempts zero key cutoff now count = ret gave_up
add_attempts (suc attempts) key cutoff now count =
    let again = add_attempts attempts key cutoff now count in
    ask key >>= add_loaded key cutoff now count again

unfoldable pub local_add_entry : Bytes → ℤ → ℤ → ℤ → Program Bytes Added
unfolding add_attempts sub64
local_add_entry key now count window =
    add_attempts local_max_cas_retries key (sub64 now window) now count
