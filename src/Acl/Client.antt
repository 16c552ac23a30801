-- ===== src/Acl/Client.antt =====
-- Which address a request is judged by.
use gpustack_higress_plugin.Common.{
  ◌≡◌, ◌↔◌, subst, refl, ap, inl, inr, Bytes, true, false, some, List, [], ◌∷◌, ◌++◌, All,
  split_byte, eqb, not, Bool-cases, Option-cases,
}
use gpustack_higress_plugin.Acl.Net.{IpNet, NetText}
use gpustack_higress_plugin.Acl.Request.{
  Request, Walk, all_trusted, broken, client, client_of, visit_entry, parse_forwarded_ip,
  ip_in_networks, walk_entries, resolve_trusted_client_ip, source_address_host, resolve_client_ip,
}

module _ (net : NetText) (trusted : List IpNet) where
  -- An entry that a trusted proxy put in: it reads as an address inside the trusted networks.
  abbrev pub IsProxy : Bytes → Type 0
  IsProxy e =
      (ip : Bytes) × (parse_forwarded_ip net e ≡ some ip) × (ip_in_networks net ip trusted ≡ true)

  -- An entry that reads as an address outside them.
  abbrev pub IsClient : Bytes → Bytes → Type 0
  IsClient ip e = (parse_forwarded_ip net e ≡ some ip) × (ip_in_networks net ip trusted ≡ false)

  -- The rightmost entry that is no proxy's is the client's.
  abbrev pub IsRightmost : Bytes → List Bytes → Type 0
  IsRightmost ip entries =
      (front : List Bytes) × (e : Bytes) × (back : List Bytes) × (entries ≡ front ++ (e ∷ back))
      × IsClient ip e
      × All IsProxy back

  walk-proxies :
      (back : List Bytes) → All IsProxy back → walk_entries net trusted back ≡ all_trusted
  unfolding walk_entries
  walk-proxies [] h = refl
  walk-proxies (e ∷ back) ((ip, reads, inside), rest) =
      rw (walk-proxies back rest, reads, inside) refl

  walk-client :
      (ip : Bytes) (front : List Bytes) (e : Bytes) (back : List Bytes)
      → IsClient ip e
      → All IsProxy back
      → walk_entries net trusted (front ++ (e ∷ back)) ≡ client ip
  unfolding walk_entries
  walk-client ip [] e back (reads, outside) proxies =
      rw (walk-proxies back proxies, reads, outside) refl
  walk-client ip (f ∷ front) e back found proxies =
      rw (walk-client ip front e back found proxies) refl

  -- What a walk's result says of its entries.
  abbrev Means : Walk → List Bytes → Type 0
  Means all_trusted entries = All IsProxy entries
  Means broken entries = Unit
  Means (client ip) entries = IsRightmost ip entries

  Means-step :
      (e : Bytes) (rest : List Bytes) (w : Walk)
      → Means w rest
      → Means (visit_entry net trusted (parse_forwarded_ip net e) w) (e ∷ rest)
  Means-step e rest all_trusted h = elim (Option-cases (parse_forwarded_ip net e)) [
    | inl bad ↦ rw bad tt
    | inr (ip, reads) ↦ elim (Bool-cases (ip_in_networks net ip trusted)) [
      | inl inside ↦ rw (reads, inside) ((ip, reads, inside), h)
      | inr outside ↦ rw (reads, outside) ([], e, rest, refl, (reads, outside), h)
    ]
  ]
  Means-step e rest broken h = tt
  Means-step e rest (client ip) (front, x, back, same, found, proxies) =
      (e ∷ front, x, back, ap (λ l. e ∷ l) same, found, proxies)

  walk-Means : (entries : List Bytes) → Means (walk_entries net trusted entries) entries
  unfolding walk_entries
  walk-Means [] = tt
  walk-Means (e ∷ rest) = Means-step e rest (walk_entries net trusted rest) (walk-Means rest)

  some-inj : {x y : Bytes} → some x ≡ some y → x ≡ y
  some-inj h = cc

  client_of-Means :
      (ip : Bytes) (entries : List Bytes) (w : Walk)
      → client_of w ≡ some ip
      → Means w entries
      → IsRightmost ip entries
  client_of-Means ip entries all_trusted h m = absurd (cc)
  client_of-Means ip entries broken h m = absurd (cc)
  client_of-Means ip entries (client x) h m = subst (λ y. IsRightmost y entries) (some-inj h) m

  -- The walk over a forwarding header finds an address exactly where some entry reads as that address,
  -- lies outside the trusted networks, and has only trusted proxies' entries on its right.
  pub resolve_trusted_client_ip_iff :
      (value ip : Bytes)
      → (resolve_trusted_client_ip net value trusted ≡ some ip)
        ↔ IsRightmost ip (split_byte b',' value)
  unfolding resolve_trusted_client_ip
  resolve_trusted_client_ip_iff value ip =
      let entries = split_byte b',' value in
      (
        λ h. client_of-Means ip entries (walk_entries net trusted entries) h (walk-Means entries),
        λ (front, e, back, same, found, proxies).
            rw same (rw (walk-client ip front e back found proxies) refl),
      )

-- A connection that does not come from a trusted network is judged by its own address: two requests
-- on it that differ in their headers in any way have the same client.
pub resolve_client_ip-untrusted :
    (net : NetText) (req other : Request) (header source : Bytes) (trusted : List IpNet)
    → source_address_host net req ≡ some source
    → other.source_address ≡ req.source_address
    → ip_in_networks net source trusted ≡ false
    → (resolve_client_ip net other header trusted ≡ some source)
      × (resolve_client_ip net req header trusted ≡ some source)
unfolding resolve_client_ip source_address_host
resolve_client_ip-untrusted net req other header source trusted here same outside =
    elim (Bool-cases (not (eqb header []))) [
      | inl named ↦ rw same (rw here (rw (named, outside) (refl, refl)))
      | inr unnamed ↦ rw same (rw here (rw unnamed (refl, refl)))
    ]
