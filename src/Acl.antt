-- ===== src/Acl.antt =====
-- extensions/gpustack-ip-acl/main.go: the rules of an address list per consumer, and what a request
-- is checked against.
pub mod Net
pub mod Config
pub mod Request
pub mod Enforce
pub mod Client
pub mod Lookup
pub mod Redeclare
mod Tests
use gpustack_higress_plugin.Common.{
  ℕ, suc, ◌-◌, Bytes, Bool, true, false, Option, none, some, List, [], ◌∷◌, codes, eqb, has_prefix,
  has_suffix, count_byte, drop, take, length, lookup, any, not, ◌&&◌, ◌==◌, if◌then◌else◌,
}
use gpustack_higress_plugin.Acl.Net.{IpNet, NetText, normalize, contains, repeated}

pub record ConsumerAcl : Type 0 where
  pub allowed : List IpNet
  pub denied : List IpNet

-- A name with one `*`: what stands before it (`prefix`) or behind it.
pub record ConsumerPattern : Type 0 where
  pub pattern : Bytes
  pub prefix : Bool
  pub acl : ConsumerAcl

pub record IpAclConfig : Type 0 where
  pub exact : List (Bytes × ConsumerAcl)
  pub patterns : List ConsumerPattern
  pub real_ip_header : Bytes
  pub real_ip_from : List IpNet

abbrev pub star : ℕ
star = b'*'

unfoldable pub split_wildcard : Bytes → Option (Bytes × Bool)
split_wildcard key =
    if not (count_byte star key == 1)
    then none
    else if eqb key (codes "*")
    then some ([], true)
    else if has_prefix key (codes "*")
    then some (drop 1 key, false)
    else if has_suffix key (codes "*")
    then some (take (length key - 1) key, true)
    else none

abbrev pub pattern_matches : Bytes → ConsumerPattern → Bool
pattern_matches consumer p =
    if p.prefix then has_prefix consumer p.pattern else has_suffix consumer p.pattern

-- The loop over the patterns.
abbrev pub first_match : Bytes → List ConsumerPattern → Option ConsumerAcl
first_match consumer [] = none
first_match consumer (p ∷ rest) =
    let later = first_match consumer rest in
    if pattern_matches consumer p then some p.acl else later

abbrev pub or_acl : Option ConsumerAcl → Option ConsumerAcl → Option ConsumerAcl
or_acl none later = later
or_acl (some acl) later = some acl

unfoldable pub lookup_acl : IpAclConfig → Bytes → Option ConsumerAcl
lookup_acl config consumer =
    or_acl (lookup consumer config.exact) (first_match consumer config.patterns)

abbrev pub zero_config : IpAclConfig
zero_config = record { exact = []; patterns = []; real_ip_header = []; real_ip_from = [] }

-- The networks that ParseCIDR reads from "0.0.0.0/0" and "::/0".
abbrev pub v4_all : IpNet
v4_all = record { ip = repeated 4 0; mask = repeated 4 0 }

abbrev pub v6_all : IpNet
v6_all = record { ip = repeated 16 0; mask = repeated 16 0 }

unfoldable pub deny_all_config : IpAclConfig
deny_all_config = record zero_config {
  patterns =
      record {
        pattern = [];
        prefix = true;
        acl = record { allowed = []; denied = v4_all ∷ v6_all ∷ [] };
      }
      ∷ [];
}

abbrev pub invalid_ip : Bytes → Bytes
invalid_ip client_ip = append (codes "Invalid client IP: ") client_ip
  where
    append : Bytes → Bytes → Bytes
    append [] t = t
    append (c ∷ s) t = c ∷ append s t

abbrev pub in_denied : Bytes
in_denied = codes "Client IP denied for this API key"

abbrev pub not_in_allowed : Bytes
not_in_allowed = codes "Client IP not in API key whitelist"

abbrev pub in_any : List IpNet → Bytes → Bool
in_any networks ip = any (λ n. contains n ip) networks

-- The end of enforce, at the address that the text was read to. `some` is a denial's reason.
unfoldable pub enforce_ip : List IpNet → List IpNet → Bytes → Option Bytes
unfolding contains
enforce_ip [] denied ip = if in_any denied ip then some in_denied else none
enforce_ip (n ∷ allowed) denied ip =
    if in_any denied ip
    then some in_denied
    else if in_any (n ∷ allowed) ip
    then none
    else some not_in_allowed

abbrev pub enforce_parsed : Bytes → List IpNet → List IpNet → Option Bytes → Option Bytes
enforce_parsed client_ip allowed denied none = some (invalid_ip client_ip)
enforce_parsed client_ip allowed denied (some ip) = enforce_ip allowed denied (normalize ip)

unfoldable pub enforce : NetText → Bytes → List IpNet → List IpNet → Option Bytes
unfolding enforce_ip normalize
enforce net client_ip allowed denied =
    enforce_parsed client_ip allowed denied (net.parse_ip client_ip)
