-- ===== src/Acl/Enforce.antt =====
-- What enforce admits, and that a configuration that does not parse admits nobody.
use gpustack_higress_plugin.Common.{
  ℕ, zero, suc, ◌+◌, ◌/◌, bit_and, ◌≡◌, ◌≢◌, ◌↔◌, ◌⊎◌, inl, inr, refl, sym, ◌∙◌, Bytes, Bool, true,
  false, Option, none, some, List, [], ◌∷◌, length, drop, take, eqb, eqb_iff, not, ◌&&◌, Bool-cases,
  Option-cases, arith,
}
use Prim.Native.Nat.{min, digits, bit_and-bitwise}
use gpustack_higress_plugin.Json.{Gjson}
use gpustack_higress_plugin.Acl.Net.{
  IpNet, NetText, to4, normalize, repeated, contains, masked_eq, v4_in_v6_prefix,
}
use gpustack_higress_plugin.Acl.{
  IpAclConfig, in_any, v4_all, v6_all, enforce, enforce_ip, lookup_acl, deny_all_config,
}
use gpustack_higress_plugin.Acl.Config.{ConfigError, or_deny_all, parse_config, parse_global_config}
use gpustack_higress_plugin.Acl.Request.{
  Request, pass, reject, header_consumer, check_ip, resolve_client_ip, on_http_request_headers,
}

digits-zero : (n a : ℕ) → digits (λ b. zero) min n a 0 ≡ 0
digits-zero zero a = refl
digits-zero (suc n) zero = refl
digits-zero (suc n) (suc a) = rw (digits-zero n (suc a / 2)) (omega arith)

bit_and-zero : (a : ℕ) → bit_and a 0 ≡ 0
bit_and-zero a = bit_and-bitwise a 0 ∙ digits-zero a a

masked_eq-zero : (n : ℕ) (ip : Bytes) → masked_eq (repeated n 0) (repeated n 0) ip ≡ true
masked_eq-zero zero ip = refl
masked_eq-zero (suc n) [] = refl
masked_eq-zero (suc n) (x ∷ ip) = rw (bit_and-zero x) (masked_eq-zero n ip)

contains-v4_all : (ip : Bytes) → length ip ≡ 4 → contains v4_all ip ≡ true
unfolding contains normalize to4
contains-v4_all ip four = rw (four, four) (masked_eq-zero 4 ip)

contains-v6_all : (ip : Bytes) → length ip ≡ 16 → to4 ip ≡ none → contains v6_all ip ≡ true
unfolding contains normalize
contains-v6_all ip len unlike4 = rw (unlike4, len) (masked_eq-zero 16 ip)

drop-length : (k n : ℕ) (ip : Bytes) → length ip ≡ k + n → length (drop k ip) ≡ n
drop-length zero n ip h = omega (arith, h)
drop-length (suc k) n [] h = absurd (omega (arith, h))
drop-length (suc k) n (x ∷ ip) h = drop-length k n ip (omega (arith, h))

to4-cases :
    (ip : Bytes)
    → length ip ≡ 16
    → (to4 ip ≡ none) ⊎ ((short : Bytes) × (to4 ip ≡ some short) × (length short ≡ 4))
unfolding to4
to4-cases ip len = elim (Bool-cases (eqb (take 12 ip) v4_in_v6_prefix)) [
  | inl mapped ↦ rw (len, mapped) (inr (drop 12 ip, refl, drop-length 12 4 ip len))
  | inr plain ↦ rw (len, plain) (inl refl)
]

-- The length of what ParseIP reads, which its documentation gives.
abbrev pub IsIpLength : Bytes → Type 0
IsIpLength ip = (length ip ≡ 4) ⊎ (length ip ≡ 16)

covered_v4 : (ip : Bytes) → length ip ≡ 4 → in_any (v4_all ∷ v6_all ∷ []) ip ≡ true
covered_v4 ip four = rw (contains-v4_all ip four) refl

covered_v6 : (ip : Bytes) → length ip ≡ 16 → to4 ip ≡ none → in_any (v4_all ∷ v6_all ∷ []) ip ≡ true
covered_v6 ip len unlike4 = elim (Bool-cases (contains v4_all ip)) [
  | inl h ↦ rw h refl
  | inr h ↦ rw (h, contains-v6_all ip len unlike4) refl
]

covered : (ip : Bytes) → IsIpLength ip → in_any (v4_all ∷ v6_all ∷ []) (normalize ip) ≡ true
unfolding normalize
covered ip (inl four) =
    let same : to4 ip ≡ some ip = unfold to4 in rw four refl in rw same (covered_v4 ip four)
covered ip (inr len) = elim (to4-cases ip len) [
  | inl plain ↦ rw plain (covered_v6 ip len plain)
  | inr (short, e, four) ↦ rw e (covered_v4 short four)
]

-- The rule in words: outside the denied networks, and inside an allowed one where there are any.
abbrev pub admits : List IpNet → List IpNet → Bytes → Bool
admits [] denied ip = not (in_any denied ip)
admits (n ∷ allowed) denied ip = not (in_any denied ip) && in_any (n ∷ allowed) ip

false-ne-true : false ≡ true → ⊥
false-ne-true h = cc

none-ne-some : {A : Type 0} {a : A} → some a ≡ none → ⊥
none-ne-some h = cc

enforce_ip-admits :
    (allowed denied : List IpNet) (ip : Bytes)
    → (enforce_ip allowed denied ip ≡ none) ↔ (admits allowed denied ip ≡ true)
unfolding enforce_ip
enforce_ip-admits [] denied ip = ground arith
enforce_ip-admits (n ∷ allowed) denied ip = elim (Bool-cases (in_any denied ip)) [
  | inl out ↦ rw out (λ h. absurd (none-ne-some h), λ h. absurd (false-ne-true h))
  | inr stays ↦ elim (Bool-cases (in_any (n ∷ allowed) ip)) [
    | inl h ↦ rw (stays, h) (λ _. refl, λ _. refl)
    | inr h ↦ rw (stays, h) (λ x. absurd (none-ne-some x), λ x. absurd (false-ne-true x))
  ]
]

-- A client whose address can be read is let through exactly if no denied network contains it and
-- the allow list is empty or one of its networks contains it.
pub enforce-admits :
    (net : NetText) (client_ip ip : Bytes) (allowed denied : List IpNet)
    → net.parse_ip client_ip ≡ some ip
    → (enforce net client_ip allowed denied ≡ none) ↔ (admits allowed denied (normalize ip) ≡ true)
unfolding enforce
enforce-admits net client_ip ip allowed denied e =
    rw e (enforce_ip-admits allowed denied (normalize ip))

or_deny_all-some :
    (p : IpAclConfig × Option ConfigError) (e : ConfigError)
    → p.1 ≡ some e
    → or_deny_all p ≡ deny_all_config
or_deny_all-some (config, none) e h = absurd (none-ne-some (sym h))
or_deny_all-some (config, some x) e h = refl

eqb_of_ne : (s t : Bytes) → s ≢ t → eqb s t ≡ false
eqb_of_ne s t h = ground (arith, eqb_iff s t)

reject_ne_pass : (reason : Bytes) → reject reason ≢ pass
reject_ne_pass reason = cc

denied_client :
    (net : NetText) (client_ip : Option Bytes)
    → ((s ip : Bytes) → net.parse_ip s ≡ some ip → IsIpLength ip)
    → check_ip net (record { allowed = []; denied = v4_all ∷ v6_all ∷ [] }) client_ip ≢ pass
unfolding enforce enforce_ip
denied_client net none law = reject_ne_pass _
denied_client net (some s) law = elim (Option-cases (net.parse_ip s)) [
  | inl e ↦ rw e (reject_ne_pass _)
  | inr (ip, e) ↦ rw (e, covered ip (law s ip e)) (reject_ne_pass _)
]

-- The configuration that is left where the global one does not parse lets no request of a named
-- consumer through, whatever the request holds, where ParseIP gives 4 or 16 bytes.
pub parse_global_config-closed :
    {J : Type 0} (net : NetText) (G : Gjson J) (json : J) (config : IpAclConfig) (e : ConfigError)
    (req : Request) (consumer : Bytes)
    → (parse_config net G json config).1 ≡ some e
    → req.header header_consumer ≡ some consumer
    → consumer ≢ []
    → ((s ip : Bytes) → net.parse_ip s ≡ some ip → IsIpLength ip)
    → on_http_request_headers net req (parse_global_config net G json config) ≢ pass
unfolding on_http_request_headers parse_global_config lookup_acl deny_all_config
parse_global_config-closed net G json config e req consumer bad named some_name law =
    rw
      (
        or_deny_all-some (parse_config net G json config) e bad,
        named,
        eqb_of_ne consumer [] some_name,
      )
      (denied_client net (resolve_client_ip net req [] []) law)
