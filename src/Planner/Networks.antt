-- ===== src/Planner/Networks.antt =====
-- controlplane/internal/planner/planner.go: resolveNetworks and what it calls. `Formats` stands for net.ParseCIDR,
-- net.ParseIP and IP.String, with addresses as bytes, and for the two roles that the decoder of a gateway's
-- `config` fills in. A map that the code fills is a list of pairs with the latest in front.
use vcpe.Common.{
  ◌++◌, nat_eq, zero, ◌%◌, ◌&&◌, ◌+◌, map, not, string_eq, ◌/◌, [], contains, ltb, ◌*◌, ◌-◌, ◌==◌,
  if◌then◌else◌, none, some, suc, ◌∷◌, List, Option, String, ℕ,
}
use vcpe.Manifest
use vcpe.Plan.{Family, derive_bridge_name, Network, Pool}
use vcpe.Manifest.{AddressFamily, BridgeSpec, Document}

-- What net.ParseCIDR returns: the address, and the network with its mask.
pub record Cidr : Type 0 where
  pub host : List ℕ
  pub address : List ℕ
  pub mask : List ℕ

pub record Formats : Type 0 where
  pub parse_cidr : String → Option Cidr
  pub parse_ip : String → Option (List ℕ)
  pub show_ip : List ℕ → String
  pub wan_role : String → String
  pub cm_role : String → String

unfoldable pub find_value : String → List (String × String) → Option String
find_value key [] = none
find_value key ((k, value) ∷ rows) = if k == key then some value else find_value key rows

-- `if text == "" { text = fallback }`
abbrev pub or_else : String → String → String
or_else text fallback = if text == "" then fallback else text

unfoldable pub resolve_pool : Option Manifest.Pool → Option Pool
resolve_pool none = none
resolve_pool (some p) = some (record { start = p.start; end = p.end })

-- resolveFamily
unfoldable pub resolve_family : Option AddressFamily → Option Family
unfolding resolve_pool
resolve_family none = none
resolve_family (some f) =
    some (record { cidr = f.cidr; gateway = f.gateway; pool = resolve_pool f.pool })

-- `a | b` on so many bits.
unfoldable pub bit_or : ℕ → ℕ → ℕ → ℕ
bit_or zero a b = 0
bit_or (suc n) a b = 2 * bit_or n (a / 2) (b / 2) + (if a % 2 == 0 && b % 2 == 0 then 0 else 1)

unfoldable pub broadcast : List ℕ → List ℕ → List ℕ
unfolding bit_or
broadcast [] mask = []
broadcast (a ∷ address) [] = a ∷ address
broadcast (a ∷ address) (m ∷ mask) = bit_or 8 a (255 - m) ∷ broadcast address mask

-- The loop from the last byte down, which decrements the first that is not zero.
unfoldable pub decrement : List ℕ → Option (List ℕ)
decrement [] = none
decrement (b ∷ bytes) = elim (decrement bytes) [
  | some less ↦ some (b ∷ less)
  | none ↦ if ltb 0 b then some ((b - 1) ∷ bytes) else none
]

module _ (formats : Formats) where
  -- lastUsableIP
  unfoldable pub last_usable_ip : String → Option String
  unfolding broadcast decrement
  last_usable_ip cidr = elim (formats.parse_cidr cidr) [
    | none ↦ none
    | some c ↦
        let all = broadcast c.address c.mask in
        some (formats.show_ip (elim (decrement all) [ none ↦ all | some less ↦ less ]))
  ]

  unfoldable pub lan_roles_of : String → String → List Manifest.Interface → List String
  lan_roles_of wan cm [] = []
  lan_roles_of wan cm (i ∷ interfaces) =
      let rest = lan_roles_of wan cm interfaces in
      if not (i.role == wan) && not (i.role == cm) then i.role ∷ rest else rest

  -- gatewayLANRoles
  unfoldable pub gateway_lan_roles : List Manifest.Service → List String
  unfolding lan_roles_of
  gateway_lan_roles [] = []
  gateway_lan_roles (svc ∷ services) =
      let rest = gateway_lan_roles services in
      if svc.type == "gateway"
      then lan_roles_of (or_else (formats.wan_role svc.config) "wan")
          (or_else (formats.cm_role svc.config) "cm") svc.interfaces
        ++ rest
      else rest

  -- The address of a bridge, with a prefix length or without one.
  unfoldable pub bridge_host : String → Option (List ℕ)
  bridge_host text = elim (formats.parse_cidr text) [
    | some c ↦ some c.host
    | none ↦ formats.parse_ip text
  ]

  unfoldable pub bridge_gateways : List BridgeSpec → List (String × String) → List (String × String)
  unfolding bridge_host
  bridge_gateways [] found = found
  bridge_gateways (b ∷ bridges) found = bridge_gateways bridges (
      if b.ipv4 == "" then found else elim (bridge_host b.ipv4) [
        | none ↦ found
        | some host ↦ (b.name, formats.show_ip host) ∷ found
      ])

  unfoldable pub dns_of :
      List (String × String)
      → List Manifest.Interface
      → List (String × String)
      → List (String × String)
  unfolding find_value
  dns_of gateways [] result = result
  dns_of gateways (i ∷ interfaces) result = dns_of gateways interfaces (
      if i.bridge == ""
      then result
      else elim (find_value i.bridge gateways) [ none ↦ result | some gw ↦ (i.role, gw) ∷ result ])

  -- gatewayLANBridgeDNS
  unfoldable pub gateway_lan_bridge_dns :
      List Manifest.Service → List (String × String) → List (String × String)
  unfolding bridge_gateways dns_of
  gateway_lan_bridge_dns [] result = result
  gateway_lan_bridge_dns (svc ∷ services) result = gateway_lan_bridge_dns services (
      if svc.type == "gateway"
      then dns_of (bridge_gateways svc.bridges []) svc.interfaces result
      else result)

  -- The second loop of resolveNetworks, on one network.
  unfoldable pub add_gateway : List String → List (String × String) → Network → Network
  unfolding last_usable_ip find_value
  add_gateway lan_roles lan_dns n =
      let lan = contains lan_roles n.role in
      if not (n.driver == "") && not (n.driver == "bridge") then n else elim n.ipv4 [
        | none ↦
            if lan
            then elim (find_value n.role lan_dns) [
              | none ↦ n
              | some dns ↦ record n { podman_dns = dns }
            ]
            else n
        | some f ↦
            if lan
            then elim (last_usable_ip f.cidr) [
              | none ↦ record n { podman_dns = f.gateway }
              | some gw ↦ record n { host_bridge_gateway = gw; podman_dns = f.gateway }
            ]
            else if not (n.ipam_driver == "none") && not (f.gateway == "")
            then record n { host_bridge_gateway = f.gateway }
            else n
      ]

  module _ (sha1 : String → ℕ → ℕ) (itoa : ℕ → String) where
    -- Its first loop, on one network.
    unfoldable pub resolve_network : String → Manifest.Network → Network
    unfolding derive_bridge_name resolve_family
    resolve_network deployment n = record {
      role = n.role;
      bridge = or_else n.bridge (derive_bridge_name sha1 itoa deployment n.role).0;
      nat = n.nat;
      firewall = n.firewall;
      ipv4 = resolve_family n.ipv4;
      ipv6 = resolve_family n.ipv6;
      driver = n.driver;
      driver_options = n.driver_options;
      ipam_driver = n.ipam_driver;
      host_bridge_gateway = "";
      podman_dns = "";
    }

    -- resolveNetworks
    unfoldable pub resolve_networks : Document → List Network
    unfolding resolve_network gateway_lan_roles gateway_lan_bridge_dns add_gateway
    resolve_networks doc =
        let lan_roles = gateway_lan_roles doc.spec.services in
        let lan_dns = gateway_lan_bridge_dns doc.spec.services [] in
        map (add_gateway lan_roles lan_dns)
          (map (resolve_network doc.metadata.name) doc.spec.networks)
