-- ===== src/Planner/Tests.antt =====
-- A gateway that needs a configuration server, and a client that needs both.
use vcpe.Common.{
  length, Option, string_eq, ◌<>◌, ◌||◌, contains, not, ◌&&◌, ◌⊎◌, nat_eq, none, refl, ◌==◌,
  if◌then◌else◌, map, some, ◌∷◌, ◌≡◌, List, String, [], false, ℕ,
}
use vcpe.Planner.Build.Validated.{build-planned}
use vcpe.Manifest.Validate.{validate}
use vcpe.Net.{Prefix, Addr}
use vcpe.Planner.Build.Planned.{IsPlanOf}
use vcpe.Common.Sort.{text_before, IsSorted}
use vcpe.Planner.Build.{resolve_services, build}
use vcpe.Common.Int.{int_eq, ltb_ℤ, ℤ, pos}
use vcpe.Planner.Replicas.Delta.{compute_replica_delta_lem, runs}
use vcpe.Planner.Order.Ends.{order_services-ends}
use vcpe.Planner.Instances.Identities.{resolve_service-AreDerived, AreDerived}
use vcpe.Planner.Order.{cycle, order_services}
use vcpe.Common.Result.{err, ok}
use vcpe.Planner.Networks.{broadcast, Formats, decrement, last_usable_ip, resolve_networks}
use vcpe.Planner.Order.Started.{order_services-ok, IsStartOrder}
use vcpe.Planner.Instances.{resolve_service}
use vcpe.Planner.Replicas.{compute_replica_delta}
use vcpe.Manifest
use vcpe.Manifest.{Image, Document, BridgeSpec}
use vcpe.Plan
use vcpe.Plan.{Deployment, Instance, hex_digit, canonical_mac, derive_bridge_name}

abbrev image : Image
image = record {
  repository = "img";
  tag = "1";
  build_context = "";
  containerfile = "";
  pull_policy = "";
  platforms = [];
}

abbrev lan : Manifest.Interface
lan = record {
  role = "lan";
  device = "";
  bridge = "brlan0";
  mac = "";
  ipv4 = "";
  ipv6 = "";
  default_route = false;
  addressing = "";
}

abbrev brlan : BridgeSpec
brlan = record { name = "brlan0"; ipv4 = "10.0.10.1/24"; ipv6 = ""; dhcp_start = ""; dhcp_end = "" }

abbrev service : String → String → List String → Manifest.Service
service name type deps = record {
  name = name;
  type = type;
  replicas = pos 2;
  image = image;
  depends_on = deps;
  interfaces = lan ∷ [];
  bridges = brlan ∷ [];
  ports = [];
  volumes = [];
  config = "";
}

abbrev services : List Manifest.Service
services =
    service "cpe" "client" ("gw" ∷ "acs" ∷ [])
    ∷ service "gw" "gateway" ("acs" ∷ [])
    ∷ service "acs" "acs" []
    ∷ []

abbrev started : List Manifest.Service
started =
    service "acs" "acs" []
    ∷ service "gw" "gateway" ("acs" ∷ [])
    ∷ service "cpe" "client" ("gw" ∷ "acs" ∷ [])
    ∷ []

sorts : order_services services ≡ ok started
unfolding order_services text_before
sorts = refl

finds_cycle :
    order_services (service "a" "x" ("b" ∷ []) ∷ service "b" "x" ("a" ∷ []) ∷ []) ≡ err cycle
unfolding order_services text_before
finds_cycle = refl

-- Dots between texts of the numbers that stand in this file.
abbrev number : ℕ → String
number n = if n == 254 then "254" else if n == 10 then "10" else if n == 1 then "1" else "0"

abbrev dotted : List ℕ → String
dotted [] = ""
dotted (b ∷ []) = number b
dotted (b ∷ c ∷ bytes) = number b <> ("." <> dotted (c ∷ bytes))

abbrev formats : Formats
formats = record {
  parse_cidr = λ text.
      if text == "10.0.10.0/24"
      then some (record {
        host = 10 ∷ 0 ∷ 10 ∷ 0 ∷ [];
        address = 10 ∷ 0 ∷ 10 ∷ 0 ∷ [];
        mask = 255 ∷ 255 ∷ 255 ∷ 0 ∷ [];
      })
      else none;
  parse_ip = λ text. none;
  show_ip = λ bytes. dotted bytes;
  wan_role = λ config. "";
  cm_role = λ config. "";
}

last_of_a_lan : last_usable_ip formats "10.0.10.0/24" ≡ some "10.0.10.254"
unfolding last_usable_ip
last_of_a_lan = refl

-- The decrement does not borrow: the last address of a single-address range is outside it.
no_borrow :
    decrement (broadcast (10 ∷ 0 ∷ 1 ∷ 0 ∷ []) (255 ∷ 255 ∷ 255 ∷ 255 ∷ []))
    ≡ some (10 ∷ 0 ∷ 0 ∷ 0 ∷ [])
unfolding decrement broadcast
no_borrow = refl

abbrev doc : Document
doc = record {
  api_version = "vcpe.dev/v1";
  kind = "Deployment";
  metadata = record { name = "home"; labels = []; annotations = [] };
  spec = record {
    networks =
        record {
          role = "lan";
          bridge = "br0";
          nat = false;
          firewall = false;
          ipv4 = some (record { cidr = "10.0.10.0/24"; gateway = "10.0.10.1"; pool = none });
          ipv6 = none;
          driver = "";
          driver_options = [];
          ipam_driver = "";
        }
        ∷ [];
    services = services;
    secrets = [];
    max_replicas_per_service = pos 0;
    max_active_deployments = pos 0;
  };
}

abbrev zeros : String → ℕ → ℕ
zeros key i = 0

abbrev one_digit : ℕ → String
one_digit n = if n == 0 then "0" else "1"

abbrev networks : List Plan.Network
unfolding resolve_networks
networks = resolve_networks formats zeros one_digit doc

lan_is_served : map (λ (n : Plan.Network). n.host_bridge_gateway) networks ≡ "10.0.10.254" ∷ []
unfolding resolve_networks
lan_is_served = refl

abbrev home : Deployment
unfolding resolve_networks resolve_services
home = record {
  name = "home";
  labels = [];
  networks = networks;
  services = resolve_services formats zeros one_digit "home" (("gw", pos 1) ∷ []) networks started;
}

builds : build formats zeros one_digit doc (("gw", pos 1) ∷ []) ≡ ok home
unfolding build text_before
builds = refl

abbrev parse_prefix : String → Option Prefix
parse_prefix text =
    if text == "10.0.10.0/24"
    then some (record { width = 32; addr = 167774720; bits = 24 })
    else none

abbrev parse_addr : String → Option Addr
parse_addr text =
    if text == "10.0.10.1" then some (record { width = 32; value = 167774721; zone = "" }) else none

accepts : validate parse_prefix parse_addr doc ≡ ok tt
unfolding validate
accepts = refl

build-planned_example :
    (plan : Deployment) × (build formats zeros one_digit doc (("gw", pos 1) ∷ []) ≡ ok plan)
    × IsPlanOf doc plan
build-planned_example =
    build-planned parse_prefix parse_addr formats zeros one_digit doc (("gw", pos 1) ∷ []) accepts

compute_replica_delta_lem_example :
    (let delta = compute_replica_delta (pos 3) (pos 1) in
      ((i : ℤ)
        → ((runs (pos 3) i && not (contains delta.to_remove i)) || contains delta.to_add i)
          ≡ runs (pos 1) i)
      × IsSorted ltb_ℤ delta.to_add
      × IsSorted (λ x y. ltb_ℤ y x) delta.to_remove)
compute_replica_delta_lem_example = compute_replica_delta_lem 3 1

order_services-ends_example :
    (order_services services ≡ err cycle)
    ⊎ ((ordered : List Manifest.Service) × (order_services services ≡ ok ordered))
order_services-ends_example = order_services-ends services

order_services-ok_example : IsStartOrder services started
order_services-ok_example = order_services-ok services started (refl, (refl, (refl, tt))) sorts

resolve_service-AreDerived_example :
    (let made =
        (resolve_service zeros one_digit "home"
          (service "gw" "gateway" [])
          (pos 1)
          networks).instances in
      AreDerived zeros one_digit "home" (service "gw" "gateway" []) 0 made × (length made ≡ 2))
resolve_service-AreDerived_example =
    resolve_service-AreDerived zeros one_digit "home" networks (service "gw" "gateway" []) (pos 1) 0
      refl
