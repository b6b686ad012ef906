-- ===== src/Ipam/Allocate/Tests.antt =====
-- Allocation from a pool of four addresses, with a gateway and an explicit address among them.
use vcpe.Common.{
  inr, ◌∙◌, sym, arith, inl, map, Bool-cases, [], contains, true, List, false, ◌∷◌, ◌≡◌, refl,
  string_eq, none, nat_eq, some, ◌==◌, Option, if◌then◌else◌, String, ℕ,
}
use vcpe.Ipam.Allocate.{
  put, addr_beq_iff, addr_beq, Texts, Book, allocate, allocate_interfaces, exhausted,
}
use vcpe.Common.Result.{ok, err}
use vcpe.Common.Int.{pos}
use vcpe.Net.{Addr}
use vcpe.Common.Sort.{text_before}
use vcpe.Ipam.Allocate.{addr_eq}
use vcpe.Plan.{Deployment, Network, Service, Interface, Pool, Family}
use vcpe.Ipam.Allocate.Taken.{allocate_interfaces-Apart, Apart}
use vcpe.Ipam.Allocate.Exhausted.{allocate-exhausted, fresh, again}

abbrev v4 : ℕ → Addr
v4 n = record { width = 32; value = n; zone = "" }

-- Addresses of 10.0.0.0/29, and the last one of the family.
abbrev parse_addr : String → Option Addr
parse_addr text =
    if text == "10.0.0.1"
    then some (v4 167772161)
    else if text == "10.0.0.2"
    then some (v4 167772162)
    else if text == "10.0.0.3"
    then some (v4 167772163)
    else if text == "10.0.0.4"
    then some (v4 167772164)
    else if text == "255.255.255.255"
    then some (v4 4294967295)
    else none

abbrev show_addr : Addr → String
show_addr a =
    if addr_beq a (v4 167772161)
    then "10.0.0.1"
    else if addr_beq a (v4 167772162)
    then "10.0.0.2"
    else if addr_beq a (v4 167772163)
    then "10.0.0.3"
    else if addr_beq a (v4 4294967295)
    then "255.255.255.255"
    else "invalid IP"

shown-one :
    (x a b : Addr) (text rest : String)
    → parse_addr text ≡ some x
    → (parse_addr rest ≡ some b → b ≡ a)
    → parse_addr (if addr_beq a x then text else rest) ≡ some b
    → b ≡ a
shown-one x a b text rest reads later here = elim (Bool-cases (addr_beq a x)) [
  | inl same ↦
      let is = (addr_beq_iff a x).0 same in
      let read : some x ≡ some b = sym reads ∙ (simp same at here) in
      let value : x ≡ b = cc in sym (is ∙ value)
  | inr other ↦ later (simp other at here)
]

parse-show : (a b : Addr) → parse_addr (show_addr a) ≡ some b → b ≡ a
parse-show a b = shown-one (v4 167772161) a b "10.0.0.1" _ refl (
    shown-one (v4 167772162) a b "10.0.0.2" _ refl (
      shown-one (v4 167772163) a b "10.0.0.3" _ refl
        (shown-one (v4 4294967295) a b "255.255.255.255" _ refl (λ h. cc h))))

abbrev texts : Texts
texts = record { parse = parse_addr; show = show_addr; parse-empty = refl; parse-show = parse-show }

abbrev family : String → String → String → Family
family gateway start end = record {
  cidr = "10.0.0.0/29";
  gateway = gateway;
  pool = some (record { start = start; end = end });
}

abbrev lan : Family → Network
lan f = record {
  role = "lan";
  bridge = "br0";
  nat = false;
  firewall = false;
  ipv4 = some f;
  ipv6 = none;
  driver = "";
  driver_options = [];
  ipam_driver = "";
  host_bridge_gateway = "";
  podman_dns = "";
}

abbrev interface : String → Interface
interface ipv4 = record {
  role = "lan";
  network = "lab-lan";
  device = "eth0";
  bridge = "br0";
  mac = "02:00:00:00:00:01";
  ipv4 = ipv4;
  ipv6 = "";
  gateway4 = "";
  gateway6 = "";
  default_route = false;
  addressing = "";
  managed_network = true;
}

abbrev service : List String → Service
service addresses = record {
  name = "cpe";
  type = "app";
  replicas = pos 1;
  image = record {
    repository = "cpe";
    tag = "1";
    build_context = "";
    containerfile = "";
    pull_policy = "";
    platforms = [];
  };
  depends_on = [];
  bridges = [];
  ports = [];
  volumes = [];
  config = "";
  instances = record { index = 0; interfaces = map interface addresses } ∷ [];
  previous_replica_count = pos 1;
  delta = record { to_add = []; to_remove = [] };
}

abbrev lab : Family → List String → Deployment
lab f addresses = record {
  name = "lab";
  labels = [];
  networks = lan f ∷ [];
  services = service addresses ∷ [];
}

-- The gateway and the explicit address stay clear.
allocate_lab :
    allocate_interfaces texts (lab (family "10.0.0.1" "10.0.0.1" "10.0.0.3") ("" ∷ "10.0.0.2" ∷ []))
    ≡ ok (lab (family "10.0.0.1" "10.0.0.1" "10.0.0.3") ("10.0.0.3" ∷ "10.0.0.2" ∷ []))
unfolding allocate_interfaces text_before
allocate_lab = refl

allocate_interfaces-Apart_example :
    Apart texts
      (λ n. n.ipv4)
      (λ i. i.ipv4)
      "lan"
      (lab (family "10.0.0.1" "10.0.0.1" "10.0.0.3") ("" ∷ "10.0.0.2" ∷ []))
      (lab (family "10.0.0.1" "10.0.0.1" "10.0.0.3") ("10.0.0.3" ∷ "10.0.0.2" ∷ []))
      (v4 167772163)
    × Apart texts
        (λ n. n.ipv6)
        (λ i. i.ipv6)
        "lan"
        (lab (family "10.0.0.1" "10.0.0.1" "10.0.0.3") ("" ∷ "10.0.0.2" ∷ []))
        (lab (family "10.0.0.1" "10.0.0.1" "10.0.0.3") ("10.0.0.3" ∷ "10.0.0.2" ∷ []))
        (v4 167772163)
allocate_interfaces-Apart_example =
    allocate_interfaces-Apart texts
      (lab (family "10.0.0.1" "10.0.0.1" "10.0.0.3") ("" ∷ "10.0.0.2" ∷ [])) "lan" (v4 167772163)
      allocate_lab

abbrev two : Pool
two = record { start = "10.0.0.1"; end = "10.0.0.2" }

-- The gateway is used, and the first call takes the other address.
abbrev gateway_book : Book
gateway_book = record { used = λ role. v4 167772161 ∷ []; cursor = λ role. none }

abbrev full_book : Book
full_book = record {
  used = put "lan" (v4 167772162 ∷ v4 167772161 ∷ []) gateway_book.used;
  cursor = put "lan" (some (v4 167772163)) gateway_book.cursor;
}

takes_last : allocate texts two "lan" gateway_book ≡ ok ("10.0.0.2", full_book)
unfolding allocate text_before
takes_last = refl

full_pool : allocate texts two "lan" full_book ≡ err (exhausted "10.0.0.1" "10.0.0.2")
unfolding allocate text_before
full_pool = refl

allocate-exhausted_example :
    (exhausted "10.0.0.1" "10.0.0.2" ≡ exhausted "10.0.0.1" "10.0.0.2")
    × (contains (full_book.used "lan") (v4 167772162) ≡ true)
allocate-exhausted_example =
    allocate-exhausted texts two "lan" (v4 167772161) (v4 167772162) refl refl refl (refl, refl)
      (omega arith) (again (fresh gateway_book refl) takes_last) full_pool 167772162 (omega arith)
      (omega arith)

-- A pool that ends at the last address of the family is never exhausted: the zero address follows.
last_pool :
    allocate_interfaces texts (lab (family "" "255.255.255.255" "255.255.255.255") ("" ∷ "" ∷ []))
    ≡ ok (
        lab (family "" "255.255.255.255" "255.255.255.255") ("255.255.255.255" ∷ "invalid IP" ∷ []))
unfolding allocate_interfaces text_before
last_pool = refl
