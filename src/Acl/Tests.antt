-- ===== src/Acl/Tests.antt =====
-- The address lists at concrete configurations, requests and addresses.
use gpustack_higress_plugin.Common.{
  ◌≡◌, ◌≢◌, ◌↔◌, ◌⊎◌, refl, ◌∷◌, [], Bytes, true, false, Option, none, some, codes, eqb, length,
  take, drop, split_byte, ◌==◌, if◌then◌else◌, arith,
}
use gpustack_higress_plugin.Json.Sample.{Doc, text_of, object, end, field, sample}
use gpustack_higress_plugin.Acl.Net.{IpNet, NetText, normalize}
use gpustack_higress_plugin.Acl.{
  ConsumerAcl, IpAclConfig, zero_config, split_wildcard, enforce, lookup_acl, deny_all_config,
}
use gpustack_higress_plugin.Acl.Config.{
  config_not_object, parse_consumer_acl, parse_cidr_list, parse_config, parse_global_config,
  parse_override_rule_config,
}
use gpustack_higress_plugin.Acl.Request.{
  Request, pass, header_consumer, resolve_trusted_client_ip, on_http_request_headers,
}
use gpustack_higress_plugin.Acl.Enforce.{
  IsIpLength, admits, enforce-admits, parse_global_config-closed,
}
use gpustack_higress_plugin.Acl.Client.{IsRightmost, resolve_trusted_client_ip_iff}
use gpustack_higress_plugin.Acl.Lookup.{parse_override_rule_config-inherits}
use gpustack_higress_plugin.Acl.Redeclare.{parse_override_rule_config-redeclares, redeclared}

-- Addresses are four letters, and networks are eight: the address and the mask.
abbrev four : Bytes → Option Bytes
four s = if length s == 4 then some s else none

abbrev eight : Bytes → Option IpNet
eight s = if length s == 8 then some (record { ip = take 4 s; mask = drop 4 s }) else none

abbrev letters : NetText
letters = record {
  parse_ip = four;
  parse_cidr = eight;
  split_host_port = λ s. none;
  trim_space = λ s. s;
}

letters-length : (s ip : Bytes) → four s ≡ some ip → IsIpLength ip
letters-length s ip h = ground arith

abbrev client_net : IpNet
client_net = record { ip = codes "abcd"; mask = 255 ∷ 255 ∷ 0 ∷ 0 ∷ [] }

enforce-admits_example :
    (enforce letters (codes "abzz") (client_net ∷ []) [] ≡ none)
    ↔ (admits (client_net ∷ []) [] (normalize (codes "abzz")) ≡ true)
enforce-admits_example =
    enforce-admits letters (codes "abzz") (codes "abzz") (client_net ∷ []) [] refl

let_in : enforce letters (codes "abzz") (client_net ∷ []) [] ≡ none
unfolding enforce
let_in = refl

abbrev alice : Request
alice = record {
  source_address = some (codes "abzz");
  header = λ h. if eqb h header_consumer then some (codes "alice") else none;
}

config_error : (parse_config letters sample (text_of []) zero_config).1 ≡ some config_not_object
unfolding parse_config
config_error = refl

parse_global_config-closed_example :
    on_http_request_headers letters alice
      (parse_global_config letters sample (text_of []) zero_config)
    ≢ pass
parse_global_config-closed_example =
    parse_global_config-closed letters sample (text_of []) zero_config config_not_object alice
      (codes "alice") config_error refl (λ h. absurd (cc)) letters-length

-- The client is in front of the one proxy of the list.
resolve_trusted_client_ip_iff_example :
    (resolve_trusted_client_ip letters (codes "zzzz,xxxx,abyy") (client_net ∷ [])
      ≡ some (codes "xxxx"))
    ↔ IsRightmost letters
        (client_net ∷ [])
        (codes "xxxx")
        (split_byte b',' (codes "zzzz,xxxx,abyy"))
resolve_trusted_client_ip_iff_example =
    resolve_trusted_client_ip_iff letters (client_net ∷ []) (codes "zzzz,xxxx,abyy") (codes "xxxx")

finds_client :
    resolve_trusted_client_ip letters (codes "zzzz,xxxx,abyy") (client_net ∷ [])
    ≡ some (codes "xxxx")
unfolding resolve_trusted_client_ip
finds_client = refl

-- A route that declares the consumer `bob`, without lists.
abbrev bob_route : Doc
bob_route = object (field (codes "consumers") (object (field (codes "bob") (object end) end)) end)

abbrev global : IpAclConfig
global = record zero_config {
  exact =
      (codes "alice", record { allowed = client_net ∷ []; denied = [] })
      ∷ (codes "bob", record { allowed = client_net ∷ []; denied = [] })
      ∷ [];
}

not_alice : eqb (codes "bob") (codes "alice") ≡ false
not_alice = refl

parse_override_rule_config-inherits_example :
    (parse_override_rule_config letters sample bob_route global ≡ deny_all_config)
    ⊎ (lookup_acl (parse_override_rule_config letters sample bob_route global) (codes "alice")
        ≡ lookup_acl global (codes "alice"))
parse_override_rule_config-inherits_example =
    parse_override_rule_config-inherits letters sample bob_route global (codes "alice")
      ((unfold split_wildcard in not_alice), tt)

plain_bob : split_wildcard (codes "bob") ≡ none
unfolding split_wildcard
plain_bob = refl

abbrev open_rule : ConsumerAcl
open_rule = record { allowed = []; denied = [] }

declared :
    redeclared letters sample
      (codes "bob")
      (sample.entries (sample.get bob_route (codes "consumers")))
    ≡ some open_rule
unfolding parse_consumer_acl parse_cidr_list
declared = refl

parse_override_rule_config-redeclares_example :
    (parse_override_rule_config letters sample bob_route global ≡ deny_all_config)
    ⊎ (lookup_acl (parse_override_rule_config letters sample bob_route global) (codes "bob")
        ≡ some open_rule)
parse_override_rule_config-redeclares_example =
    parse_override_rule_config-redeclares letters sample (codes "bob") bob_route global open_rule
      refl plain_bob declared
