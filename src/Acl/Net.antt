-- ===== src/Acl/Net.antt =====
-- Go's package net: addresses, networks, and the readers of their texts.
use gpustack_higress_plugin.Common.{
  ℕ, zero, suc, bit_and, Bytes, Bool, true, false, Option, none, some, [], ◌∷◌, length, drop, take,
  eqb, ◌==◌, ◌&&◌, if◌then◌else◌,
}

-- net.IP is its 4 or 16 bytes; net.IPNet is the address and the mask.
pub record IpNet : Type 0 where
  pub ip : Bytes
  pub mask : Bytes

-- net.ParseIP, net.ParseCIDR's network, net.SplitHostPort's host (`none` for an error) and
-- strings.TrimSpace.
pub record NetText : Type 0 where
  pub parse_ip : Bytes → Option Bytes
  pub parse_cidr : Bytes → Option IpNet
  pub split_host_port : Bytes → Option Bytes
  pub trim_space : Bytes → Bytes

abbrev pub v4_in_v6_prefix : Bytes
v4_in_v6_prefix = 0 ∷ 0 ∷ 0 ∷ 0 ∷ 0 ∷ 0 ∷ 0 ∷ 0 ∷ 0 ∷ 0 ∷ 255 ∷ 255 ∷ []

-- IP.To4
unfoldable pub to4 : Bytes → Option Bytes
to4 ip =
    if length ip == 4
    then some ip
    else if (length ip == 16) && eqb (take 12 ip) v4_in_v6_prefix
    then some (drop 12 ip)
    else none

-- if ip4 := ip.To4(); ip4 != nil { ip = ip4 }
abbrev pub or_same : Bytes → Option Bytes → Bytes
or_same ip none = ip
or_same ip (some ip4) = ip4

unfoldable pub normalize : Bytes → Bytes
unfolding to4
normalize ip = or_same ip (to4 ip)

abbrev pub repeated : ℕ → ℕ → Bytes
repeated zero b = []
repeated (suc n) b = b ∷ repeated n b

-- net.CIDRMask(bits, bits), of bits / 8 bytes
abbrev pub full_mask : ℕ → Bytes
full_mask bytes = repeated bytes 255

-- The mask of a network as Contains uses it; `none` where the lengths do not fit.
abbrev fitted_mask : Bytes → Bytes → Option Bytes
fitted_mask ip mask =
    if length mask == 4
    then (if length ip == 4 then some mask else none)
    else if length mask == 16
    then (if length ip == 4
        then some (drop 12 mask)
        else if length ip == 16
        then some mask
        else none)
    else none

abbrev pub masked_eq : Bytes → Bytes → Bytes → Bool
masked_eq (n ∷ nn) (m ∷ mm) (x ∷ ip) = (bit_and n m == bit_and x m) && masked_eq nn mm ip
masked_eq [] mm ip = true
masked_eq (n ∷ nn) [] ip = true
masked_eq (n ∷ nn) (m ∷ mm) [] = true

abbrev pub contains_masked : Bytes → Option Bytes → Bytes → Bool
contains_masked nn none ip = false
contains_masked nn (some mask) ip = (length ip == length nn) && masked_eq nn mask ip

-- IPNet.Contains
unfoldable pub contains : IpNet → Bytes → Bool
unfolding normalize
contains network ip =
    let nn = normalize network.ip in contains_masked nn (fitted_mask nn network.mask) (normalize ip)
