-- ===== src/Acl/Config.antt =====
-- The parsers of the plugin's global configuration and of a route's.
use gpustack_higress_plugin.Common.{
  Bytes, Bool, true, false, Option, none, some, List, [], ◌∷◌, ◌++◌, codes, eqb, insert, any, not,
  ◌&&◌, if◌then◌else◌, Result, ok, err, on_result,
}
use gpustack_higress_plugin.Json.{Gjson}
use gpustack_higress_plugin.Acl.Net.{IpNet, NetText, to4, full_mask}
use gpustack_higress_plugin.Acl.{
  ConsumerAcl, ConsumerPattern, IpAclConfig, split_wildcard, deny_all_config,
}

pub data CidrError : Type 0 where
  not_an_array : CidrError
  not_a_string : CidrError
  empty_entry : CidrError
  invalid_cidr : Bytes → CidrError

pub data ConfigError : Type 0 where
  config_not_object : ConfigError
  bad_real_ip_from : CidrError → ConfigError
  consumers_not_object : ConfigError
  consumer_not_object : Bytes → ConfigError
  unknown_field : Bytes → ConfigError
  bad_allowed : Bytes → CidrError → ConfigError
  bad_denied : Bytes → CidrError → ConfigError

-- A bare host address as a network of that address alone.
abbrev host_network_of : Bytes → Option Bytes → IpNet
host_network_of ip none = record { ip = ip; mask = full_mask 16 }
host_network_of ip (some ip4) = record { ip = ip4; mask = full_mask 4 }

unfoldable pub host_network : Bytes → IpNet
unfolding to4
host_network ip = host_network_of ip (to4 ip)

abbrev read_ip : Bytes → Option Bytes → Result CidrError IpNet
read_ip cidr none = err (invalid_cidr cidr)
read_ip cidr (some ip) = ok (host_network ip)

abbrev read_network : Bytes → Option Bytes → Option IpNet → Result CidrError IpNet
read_network cidr ip none = read_ip cidr ip
read_network cidr ip (some network) = ok network

abbrev with_network :
    Result CidrError IpNet → Result CidrError (List IpNet) → Result CidrError (List IpNet)
with_network (err e) rest = err e
with_network (ok n) (err e) = err e
with_network (ok n) (ok networks) = ok (n ∷ networks)

abbrev pub valid_consumer_keys : List Bytes
valid_consumer_keys = codes "allowedCidrs" ∷ codes "deniedCidrs" ∷ []

-- The first key outside the valid ones.
abbrev pub unknown_key : List Bytes → Option Bytes
unknown_key [] = none
unknown_key (k ∷ rest) =
    let later = unknown_key rest in if any (λ v. eqb v k) valid_consumer_keys then later else some k

abbrev with_denied :
    Bytes
    → Result CidrError (List IpNet)
    → Result CidrError (List IpNet)
    → Result ConfigError ConsumerAcl
with_denied name (err e) denied = err (bad_allowed name e)
with_denied name (ok allowed) (err e) = err (bad_denied name e)
with_denied name (ok allowed) (ok denied) = ok (record { allowed = allowed; denied = denied })

abbrev known_fields :
    Bytes → Option Bytes → Result ConfigError ConsumerAcl → Result ConfigError ConsumerAcl
known_fields name (some k) acl = err (unknown_field name)
known_fields name none acl = acl

-- config.exact[name] = acl, or the pattern at the end.
abbrev pub put_consumer : Bytes → ConsumerAcl → Option (Bytes × Bool) → IpAclConfig → IpAclConfig
put_consumer name acl none config = record config { exact = insert name acl config.exact }
put_consumer name acl (some (pattern, prefix)) config = record config {
  patterns = config.patterns ++ (record { pattern = pattern; prefix = prefix; acl = acl } ∷ []);
}

pub record Override : Type 0 where
  pub temp : IpAclConfig
  pub new_patterns : List ConsumerPattern

abbrev pub same_bool : Bool → Bool → Bool
same_bool true b = b
same_bool false b = not b

abbrev pub behind : ConsumerPattern → Option (List ConsumerPattern) → Option (List ConsumerPattern)
behind p none = none
behind p (some l) = some (p ∷ l)

-- The pattern's place in the inherited ones takes the rule; `none` where it has none.
abbrev pub replaced :
    Bytes → Bool → ConsumerAcl → List ConsumerPattern → Option (List ConsumerPattern)
replaced pattern prefix acl [] = none
replaced pattern prefix acl (p ∷ rest) =
    let later = behind p (replaced pattern prefix acl rest) in
    if eqb p.pattern pattern && same_bool p.prefix prefix
    then some (record p { acl = acl } ∷ rest)
    else later

abbrev pub with_pattern :
    Bytes → Bool → ConsumerAcl → Override → Option (List ConsumerPattern) → Override
with_pattern pattern prefix acl o (some patterns) = record o {
  temp = record o.temp { patterns = patterns };
}
with_pattern pattern prefix acl o none = record o {
  new_patterns = o.new_patterns ++ (record { pattern = pattern; prefix = prefix; acl = acl } ∷ []);
}

-- One round of the route parser's loop.
abbrev pub override_consumer : Bytes → ConsumerAcl → Option (Bytes × Bool) → Override → Override
override_consumer name acl none o = record o {
  temp = record o.temp { exact = insert name acl o.temp.exact };
}
override_consumer name acl (some (pattern, prefix)) o =
    with_pattern pattern prefix acl o (replaced pattern prefix acl o.temp.patterns)

unfoldable pub assemble_override : Override → IpAclConfig
assemble_override o = record o.temp { patterns = o.new_patterns ++ o.temp.patterns }

abbrev pub or_deny_all : IpAclConfig × Option ConfigError → IpAclConfig
or_deny_all (config, none) = config
or_deny_all (config, some e) = deny_all_config

abbrev pub assembled : Result ConfigError Override → IpAclConfig
assembled (err e) = deny_all_config
assembled (ok o) = assemble_override o

module _ {J : Type 0} (net : NetText) (G : Gjson J) where
  open G use {exists, is_object, is_array, is_string, get, text, entries, keys, items}

  -- The body of the loop over the entries.
  abbrev pub read_cidr : J → Result CidrError IpNet
  read_cidr item =
      let cidr = net.trim_space (text item) in
      if not (is_string item)
      then err not_a_string
      else if eqb cidr []
      then err empty_entry
      else read_network cidr (net.parse_ip cidr) (net.parse_cidr cidr)

  abbrev read_cidrs : List J → Result CidrError (List IpNet)
  read_cidrs [] = ok []
  read_cidrs (item ∷ rest) = with_network (read_cidr item) (read_cidrs rest)

  unfoldable pub parse_cidr_list : J → Result CidrError (List IpNet)
  parse_cidr_list result =
      if not (exists result)
      then ok []
      else if not (is_array result)
      then err not_an_array
      else read_cidrs (items result)

  unfoldable pub parse_consumer_acl : Bytes → J → Result ConfigError ConsumerAcl
  unfolding parse_cidr_list
  parse_consumer_acl name rule =
      if not (is_object rule)
      then err (consumer_not_object name)
      else known_fields name (unknown_key (keys rule)) (
          with_denied name (parse_cidr_list (get rule (codes "allowedCidrs")))
            (parse_cidr_list (get rule (codes "deniedCidrs"))))

  -- The walk over `consumers`: the configuration so far, and the error that stopped it.
  unfoldable pub parse_consumers : List (Bytes × J) → IpAclConfig → IpAclConfig × Option ConfigError
  unfolding parse_consumer_acl split_wildcard
  parse_consumers [] config = (config, none)
  parse_consumers ((name, rule) ∷ rest) config =
      on_result (λ e. (config, some e))
        (λ acl. parse_consumers rest (put_consumer name acl (split_wildcard name) config))
        (parse_consumer_acl name rule)

  abbrev parse_consumers_of : J → IpAclConfig → IpAclConfig × Option ConfigError
  parse_consumers_of consumers config =
      if not (exists consumers)
      then (config, none)
      else if not (is_object consumers)
      then (config, some consumers_not_object)
      else parse_consumers (entries consumers) config

  abbrev with_real_ip_from :
      J → IpAclConfig → Result CidrError (List IpNet) → IpAclConfig × Option ConfigError
  with_real_ip_from json config (err e) = (config, some (bad_real_ip_from e))
  with_real_ip_from json config (ok from) =
      parse_consumers_of (get json (codes "consumers")) (record config { real_ip_from = from })

  unfoldable pub parse_config : J → IpAclConfig → IpAclConfig × Option ConfigError
  unfolding parse_consumers parse_cidr_list
  parse_config json config =
      if exists json && not (is_object json)
      then (config, some config_not_object)
      else with_real_ip_from json
          (record config { real_ip_header = text (get json (codes "realIPHeader")) })
          (parse_cidr_list (get json (codes "realIPFrom")))

  unfoldable pub parse_global_config : J → IpAclConfig → IpAclConfig
  unfolding parse_config deny_all_config
  parse_global_config json config = or_deny_all (parse_config json config)

  -- The walk over a route's `consumers`.
  unfoldable pub override_consumers : List (Bytes × J) → Override → Result ConfigError Override
  unfolding parse_consumer_acl split_wildcard
  override_consumers [] o = ok o
  override_consumers ((name, rule) ∷ rest) o =
      on_result (λ e. err e)
        (λ acl. override_consumers rest (override_consumer name acl (split_wildcard name) o))
        (parse_consumer_acl name rule)

  -- What a route starts from: the global rules and, where the route names one, its own header.
  abbrev pub inherited : J → IpAclConfig → Override
  inherited json global =
      let header = text (get json (codes "realIPHeader")) in
      record {
        temp = record global {
          real_ip_header = if not (eqb header []) then header else global.real_ip_header;
        };
        new_patterns = [];
      }

  unfoldable pub parse_override_rule_config : J → IpAclConfig → IpAclConfig
  unfolding override_consumers assemble_override deny_all_config
  parse_override_rule_config json global =
      let consumers = get json (codes "consumers") in
      if exists json && not (is_object json)
      then deny_all_config
      else if not (exists consumers)
      then assemble_override (inherited json global)
      else if not (is_object consumers)
      then deny_all_config
      else assembled (override_consumers (entries consumers) (inherited json global))
