-- ===== src/Host/Store.antt =====
-- proxywasm.GetSharedData and SetSharedData: the answers, and what the SDK documents of them.
use gpustack_higress_plugin.Common.{ℕ, Bytes, ◌≡◌, ◌≢◌}

-- What GetSharedData answers: a value with its cas number, ErrorStatusNotFound, another error.
pub data Reply (V : Type 0) : Type 0 where
  found : V → ℕ → Reply V
  missing broken : Reply V

-- What SetSharedData answers: nil, ErrorStatusCasMismatch, another error.
pub data Status : Type 0 where
  ok cas_mismatch failed : Status

-- The shared data of one Envoy process, with values of type `V`. `Issued s c` says that the cas
-- number `c` has been given to some value up to now. The laws are the SDK's: a stored value has a
-- cas number other than 0, a write with the current number or with 0 succeeds, any other write
-- of a number succeeds only if that number is current, and a number is never given out twice.
pub record SharedData (V : Type 0) : Type 1 where
  pub State : Type 0
  pub read : State → Bytes → Reply V
  pub write : State → Bytes → V → ℕ → Status × State
  pub Issued : State → ℕ → Type 0
  pub read_issued :
      (s : State) (k : Bytes) (v : V) (c : ℕ) → read s k ≡ found v c → (c ≢ 0) × Issued s c
  pub write_current :
      (s : State) (k : Bytes) (v w : V) (c : ℕ) → read s k ≡ found w c → (write s k v c).0 ≡ ok
  pub write_unconditional : (s : State) (k : Bytes) (v : V) → (write s k v 0).0 ≡ ok
  pub write_compares :
      (s : State) (k : Bytes) (v : V) (c : ℕ)
      → c ≢ 0
      → (write s k v c).0 ≡ ok
      → (w : V) × (read s k ≡ found w c)
  pub write_stores :
      (s : State) (k : Bytes) (v : V) (c : ℕ)
      → (write s k v c).0 ≡ ok
      → (n : ℕ) × (read (write s k v c).1 k ≡ found v n) × ¬ Issued s n
  pub write_keeps :
      (s : State) (k : Bytes) (v : V) (c : ℕ) → (write s k v c).0 ≢ ok → (write s k v c).1 ≡ s
  pub write_others :
      (s : State) (k j : Bytes) (v : V) (c : ℕ) → j ≢ k → read (write s k v c).1 j ≡ read s j
  pub issued_grows :
      (s : State) (k : Bytes) (v : V) (c n : ℕ) → Issued s n → Issued (write s k v c).1 n
