-- ===== src/Planner/Instances.antt =====
-- controlplane/internal/planner/planner.go: resolveInstance and resolveService.
pub mod Identities
use vcpe.Common.Int.{int_eq, pos, ltb_ℤ, pos_part, ℤ}
use vcpe.Common.{
  not, ◌<>◌, zero, suc, string_eq, ◌==◌, [], if◌then◌else◌, none, some, ◌∷◌, List, false, ℕ, Option,
  String,
}
use vcpe.Planner.Networks.{or_else}
use vcpe.Manifest
use vcpe.Plan.{Network, Interface, Instance, Service, Family, canonical_mac}
use vcpe.Planner.Replicas.{compute_replica_delta}

-- netByRole: the last network with the role, or the zero value of a missing key.
abbrev pub no_network : Network
no_network = record {
  role = "";
  bridge = "";
  nat = false;
  firewall = false;
  ipv4 = none;
  ipv6 = none;
  driver = "";
  driver_options = [];
  ipam_driver = "";
  host_bridge_gateway = "";
  podman_dns = "";
}

unfoldable pub net_by_role : String → List Network → Network → Network
net_by_role role [] found = found
net_by_role role (n ∷ networks) found =
    net_by_role role networks (if n.role == role then n else found)

abbrev pub gateway_of : Option Family → String
gateway_of none = ""
gateway_of (some f) = f.gateway

module _ (sha1 : String → ℕ → ℕ) (itoa : ℕ → String) where
  -- The body of the loop over the interfaces, at one position.
  unfoldable pub resolve_interface :
      String → Manifest.Service → ℕ → ℤ → List Network → ℕ → Manifest.Interface → Interface
  unfolding net_by_role canonical_mac
  resolve_interface deployment svc index replicas networks position i =
      let net = net_by_role i.role networks no_network in
      let mac = if ltb_ℤ (pos 1) replicas then "" else i.mac in
      let single = replicas == pos 1 in
      record {
        role = i.role;
        network = net.bridge;
        device = or_else i.device ("eth" <> itoa position);
        bridge = i.bridge;
        mac = or_else mac (canonical_mac sha1 itoa deployment svc.name i.role index);
        ipv4 = if single then i.ipv4 else "";
        ipv6 = if single then i.ipv6 else "";
        gateway4 = gateway_of net.ipv4;
        gateway6 = gateway_of net.ipv6;
        default_route = i.default_route;
        addressing = or_else i.addressing "dhcp";
        managed_network = not (net.ipam_driver == "none");
      }

  unfoldable pub resolve_interfaces :
      String
      → Manifest.Service
      → ℕ
      → ℤ
      → List Network
      → ℕ
      → List Manifest.Interface
      → List Interface
  unfolding resolve_interface
  resolve_interfaces deployment svc index replicas networks position [] = []
  resolve_interfaces deployment svc index replicas networks position (i ∷ interfaces) =
      resolve_interface deployment svc index replicas networks position i
      ∷ resolve_interfaces deployment svc index replicas networks (suc position) interfaces

  -- resolveInstance
  unfoldable pub resolve_instance : String → Manifest.Service → ℕ → ℤ → List Network → Instance
  unfolding resolve_interfaces
  resolve_instance deployment svc index replicas networks = record {
    index = index;
    interfaces = resolve_interfaces deployment svc index replicas networks 0 svc.interfaces;
  }

  -- The loop over so many indices.
  unfoldable pub resolve_instances :
      String → Manifest.Service → ℕ → ℕ → ℤ → List Network → List Instance
  unfolding resolve_instance
  resolve_instances deployment svc index zero replicas networks = []
  resolve_instances deployment svc index (suc n) replicas networks =
      resolve_instance deployment svc index replicas networks
      ∷ resolve_instances deployment svc (suc index) n replicas networks

  -- resolveService; there is no instance for a count that is not positive.
  unfoldable pub resolve_service : String → Manifest.Service → ℤ → List Network → Service
  unfolding resolve_instances compute_replica_delta
  resolve_service deployment svc before networks = record {
    name = svc.name;
    type = svc.type;
    replicas = svc.replicas;
    image = svc.image;
    depends_on = svc.depends_on;
    bridges = svc.bridges;
    ports = svc.ports;
    volumes = svc.volumes;
    config = svc.config;
    instances = resolve_instances deployment svc 0 (pos_part svc.replicas) svc.replicas networks;
    previous_replica_count = before;
    delta = compute_replica_delta before svc.replicas;
  }
