-- ===== src/Acl/Request.antt =====
-- The address of a request's client, and the decision on its headers.
use gpustack_higress_plugin.Common.{
  ◌-◌, Bytes, Bool, false, Option, none, some, List, [], ◌∷◌, codes, eqb, has_prefix, has_suffix,
  cut_before, split_byte, drop, take, length, not, ◌&&◌, ◌==◌, if◌then◌else◌,
}
use gpustack_higress_plugin.Acl.Net.{IpNet, NetText, normalize, contains}
use gpustack_higress_plugin.Acl.{ConsumerAcl, IpAclConfig, in_any, lookup_acl, enforce}

-- What the host gives of a request; `none` is an error.
pub record Request : Type 0 where
  pub source_address : Option Bytes
  pub header : Bytes → Option Bytes

-- `reject reason` is the reply with status 403 and the reason as its message, then ActionPause.
pub data AclReply : Type 0 where
  pass : AclReply
  reject : Bytes → AclReply

abbrev pub header_consumer : Bytes
header_consumer = codes "x-mse-consumer"

abbrev pub strip_brackets : Bytes → Bytes
strip_brackets host =
    if has_prefix host (codes "[") && has_suffix host (codes "]")
    then take (length host - 2) (drop 1 host)
    else host

abbrev pub or_text : Bytes → Option Bytes → Bytes
or_text s none = s
or_text s (some host) = host

pub data Walk : Type 0 where
  all_trusted : Walk
  broken : Walk
  client : Bytes → Walk

abbrev pub client_of : Walk → Option Bytes
client_of (client ip) = some ip
client_of broken = none
client_of all_trusted = none

module _ (net : NetText) where
  abbrev in_networks_of : List IpNet → Option Bytes → Bool
  in_networks_of networks none = false
  in_networks_of networks (some ip) = in_any networks (normalize ip)

  unfoldable pub ip_in_networks : Bytes → List IpNet → Bool
  unfolding normalize contains
  ip_in_networks ip networks = in_networks_of networks (net.parse_ip ip)

  abbrev readable : Bytes → Option Bytes → Option Bytes
  readable ip none = none
  readable ip (some parsed) = some ip

  unfoldable pub parse_forwarded_ip : Bytes → Option Bytes
  parse_forwarded_ip entry =
      let ip = net.trim_space (cut_before b';' entry) in
      let host = strip_brackets (or_text ip (net.split_host_port ip)) in
      if eqb ip [] then none else readable host (net.parse_ip host)

  -- The round at an entry, at what the walk over the entries right of it came to.
  abbrev pub visit_entry : List IpNet → Option Bytes → Walk → Walk
  visit_entry trusted none all_trusted = broken
  visit_entry trusted (some ip) all_trusted =
      if not (ip_in_networks ip trusted) then client ip else all_trusted
  visit_entry trusted entry broken = broken
  visit_entry trusted entry (client ip) = client ip

  unfoldable pub walk_entries : List IpNet → List Bytes → Walk
  unfolding parse_forwarded_ip ip_in_networks
  walk_entries trusted [] = all_trusted
  walk_entries trusted (e ∷ rest) =
      visit_entry trusted (parse_forwarded_ip e) (walk_entries trusted rest)

  unfoldable pub resolve_trusted_client_ip : Bytes → List IpNet → Option Bytes
  unfolding walk_entries
  resolve_trusted_client_ip value trusted = client_of (walk_entries trusted (split_byte b',' value))

  abbrev host_of : Option Bytes → Option Bytes
  host_of none = none
  host_of (some address) = some (strip_brackets (or_text address (net.split_host_port address)))

  unfoldable pub source_address_host : Request → Option Bytes
  source_address_host req = host_of req.source_address

  abbrev from_header : Bytes → List IpNet → Option Bytes → Bytes
  from_header source trusted none = source
  from_header source trusted (some value) =
      if not (eqb value [])
      then or_text source (resolve_trusted_client_ip value trusted)
      else source

  abbrev resolve_from : Request → Bytes → List IpNet → Option Bytes → Option Bytes
  resolve_from req header trusted none = none
  resolve_from req header trusted (some source) =
      if not (eqb header []) && ip_in_networks source trusted
      then some (from_header source trusted (req.header header))
      else some source

  unfoldable pub resolve_client_ip : Request → Bytes → List IpNet → Option Bytes
  unfolding source_address_host ip_in_networks resolve_trusted_client_ip
  resolve_client_ip req header trusted = resolve_from req header trusted (source_address_host req)

  abbrev verdict_of : Option Bytes → AclReply
  verdict_of none = pass
  verdict_of (some reason) = reject reason

  abbrev pub check_ip : ConsumerAcl → Option Bytes → AclReply
  check_ip acl none = reject (codes "Unable to resolve client IP")
  check_ip acl (some client_ip) = verdict_of (enforce net client_ip acl.allowed acl.denied)

  abbrev check_acl : IpAclConfig → Request → Option ConsumerAcl → AclReply
  check_acl config req none = pass
  check_acl config req (some acl) =
      if (length acl.allowed == 0) && (length acl.denied == 0)
      then pass
      else check_ip acl (resolve_client_ip req config.real_ip_header config.real_ip_from)

  abbrev check_consumer : IpAclConfig → Request → Option Bytes → AclReply
  check_consumer config req none = pass
  check_consumer config req (some consumer) =
      if eqb consumer [] then pass else check_acl config req (lookup_acl config consumer)

  unfoldable pub on_http_request_headers : Request → IpAclConfig → AclReply
  unfolding lookup_acl resolve_client_ip enforce
  on_http_request_headers req config =
      if (length config.exact == 0) && (length config.patterns == 0)
      then pass
      else check_consumer config req (req.header header_consumer)
