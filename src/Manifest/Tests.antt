-- ===== src/Manifest/Tests.antt =====
-- Checks of a network with a gateway and a pool, and of a service on it.
use vcpe.Common.{
  eq_iff, arith, ◌≢◌, List, contains, refl, ◌≡◌, some_where, string_eq, ◌≤◌, none, ◌==◌, [],
  if◌then◌else◌, some, Option, false, true, ◌∷◌, All, String, ℕ,
}
use vcpe.Manifest.{
  Document, duplicate_role, many_default_routes, DistinctRoles, Interface, Network, Service,
}
use vcpe.Manifest.Dependencies.Cycles.{detect_cycle-cycle, Reaches}
use vcpe.Manifest.Dependencies.Enough.{detect_cycle-fuel}
use vcpe.Manifest.Dependencies.{cycle, out_of_fuel, visit_all, detect_cycle}
use vcpe.Manifest.Dependencies.Order.{detect_cycle-ok, IsOrder}
use vcpe.Common.Result.{err, ok}
use vcpe.Net.{addr_after, prefix_contains, Prefix, Addr}
use vcpe.Manifest.Networks.{
  validate_pool, validate_gateway, validate_family, option_value, check_driver, has_role,
  validate_network, Roles, validate_networks,
}
use vcpe.Manifest.Interfaces.{
  role_prefixes, validate_addressing, assert_within, validate_interface, validate_interfaces,
  validate_service_interfaces,
}
use vcpe.Manifest.Interfaces.Addressed.{
  validate_service_interfaces-ok, default_routes, InterfaceFits,
}
use vcpe.Manifest.Networks.Accepted.{validate_networks-ok, NetworkFits}
use vcpe.Common.Int.{pos}

abbrev parse_prefix : String → Option Prefix
parse_prefix text =
    if text == "10.1.0.0/24"
    then some (record { width = 32; addr = 167837696; bits = 24 })
    else none

abbrev host : ℕ → Addr
host n = record { width = 32; value = n; zone = "" }

abbrev parse_addr : String → Option Addr
parse_addr text =
    if text == "10.1.0.1"
    then some (host 167837697)
    else if text == "10.1.0.10"
    then some (host 167837706)
    else if text == "10.1.0.20"
    then some (host 167837716)
    else if text == "10.9.0.1"
    then some (host 168361985)
    else none

abbrev wan : Network
wan = record {
  role = "wan";
  bridge = "br0";
  nat = false;
  firewall = false;
  ipv4 = some (record {
    cidr = "10.1.0.0/24";
    gateway = "10.1.0.1";
    pool = some (record { start = "10.1.0.10"; end = "10.1.0.20" });
  });
  ipv6 = none;
  driver = "";
  driver_options = [];
  ipam_driver = "";
}

abbrev static_port : Interface
static_port = record {
  role = "wan";
  device = "eth0";
  bridge = "";
  mac = "";
  ipv4 = "10.1.0.10";
  ipv6 = "";
  default_route = true;
  addressing = "static";
}

abbrev gateway : Service
gateway = record {
  name = "gateway";
  type = "gateway";
  replicas = pos 1;
  image = record {
    repository = "";
    tag = "";
    build_context = "";
    containerfile = "";
    pull_policy = "";
    platforms = [];
  };
  depends_on = [];
  interfaces = static_port ∷ [];
  bridges = [];
  ports = [];
  volumes = [];
  config = "";
}

abbrev wan_roles : Roles
wan_roles = ("wan", record { width = 32; addr = 167837696; bits = 24 } ∷ []) ∷ []

accepts_wan : validate_networks parse_prefix parse_addr (wan ∷ []) [] [] ≡ ok wan_roles
unfolding validate_networks validate_network has_role check_driver option_value validate_family
    validate_gateway validate_pool prefix_contains addr_after
accepts_wan = refl

refuses_a_second_wan :
    validate_networks parse_prefix parse_addr (wan ∷ wan ∷ []) [] [] ≡ err (duplicate_role "wan")
unfolding validate_networks validate_network has_role check_driver option_value validate_family
    validate_gateway validate_pool prefix_contains addr_after
refuses_a_second_wan = refl

accepts_gateway : validate_service_interfaces parse_addr gateway wan_roles ≡ ok tt
unfolding validate_service_interfaces validate_interfaces validate_interface assert_within
    validate_addressing role_prefixes some_where prefix_contains
accepts_gateway = refl

refuses_two_default_routes :
    validate_service_interfaces parse_addr
      (record gateway { interfaces = static_port ∷ static_port ∷ [] })
      wan_roles
    ≡ err (many_default_routes "gateway" 2)
unfolding validate_service_interfaces validate_interfaces validate_interface assert_within
    validate_addressing role_prefixes some_where prefix_contains
refuses_two_default_routes = refl

validate_networks-ok_example :
    DistinctRoles (wan ∷ []) × All (NetworkFits parse_prefix parse_addr) (wan ∷ [])
validate_networks-ok_example = validate_networks-ok parse_prefix parse_addr (wan ∷ []) accepts_wan

validate_service_interfaces-ok_example :
    All (InterfaceFits parse_addr gateway wan_roles) (static_port ∷ [])
    × (default_routes (static_port ∷ []) ≤ 1)
validate_service_interfaces-ok_example =
    validate_service_interfaces-ok parse_addr gateway wan_roles accepts_gateway

-- The gateway needs the router, which needs nothing.
abbrev needs : String → List String
needs service = if service == "gateway" then "router" ∷ [] else []

finds_order : detect_cycle needs ("gateway" ∷ []) ≡ ok ("gateway" ∷ "router" ∷ [])
unfolding detect_cycle visit_all
finds_order = refl

abbrev circle : String → List String
circle service = if service == "gateway" then "router" ∷ [] else "gateway" ∷ []

finds_cycle : detect_cycle circle ("gateway" ∷ "router" ∷ []) ≡ err (cycle "gateway")
unfolding detect_cycle visit_all
finds_cycle = refl

detect_cycle-ok_example :
    IsOrder needs ("gateway" ∷ "router" ∷ [])
    × All (λ (n : String). contains ("gateway" ∷ "router" ∷ []) n ≡ true) ("gateway" ∷ [])
detect_cycle-ok_example = detect_cycle-ok needs ("gateway" ∷ []) finds_order

needs-leaf : (n : String) → contains ("gateway" ∷ []) n ≡ false → needs n ≡ []
needs-leaf n other = ground (arith, eq_iff "gateway" n, eq_iff n "gateway", other)

detect_cycle-fuel_example : detect_cycle needs ("gateway" ∷ []) ≢ err out_of_fuel
detect_cycle-fuel_example = detect_cycle-fuel needs ("gateway" ∷ []) needs-leaf

detect_cycle-cycle_example : Reaches circle "gateway" "gateway"
detect_cycle-cycle_example = detect_cycle-cycle circle ("gateway" ∷ "router" ∷ []) finds_cycle

abbrev lab : Document
lab = record {
  api_version = "vcpe.dev/v1";
  kind = "Deployment";
  metadata = record { name = "lab"; labels = []; annotations = [] };
  spec = record {
    networks = wan ∷ [];
    services =
        record gateway { depends_on = "router" ∷ [] }
        ∷ record gateway { name = "router"; interfaces = [] }
        ∷ [];
    secrets = record { name = "token"; provider = "env"; key = "TOKEN" } ∷ [];
    max_replicas_per_service = pos 4;
    max_active_deployments = pos 0;
  };
}
