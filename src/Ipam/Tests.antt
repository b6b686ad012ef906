-- ===== src/Ipam/Tests.antt =====
-- A deployment beside another, with two ranges that parse.
use vcpe.Ipam.{
  overlaps_existing, load, overlaps, check_later, check_leases, check_existing, check_requested,
  network_cidrs, request_cidrs, apply, requests, check_conflicts,
}
use vcpe.Common.Result.{err, ok}
use vcpe.Common.{
  ◌≡◌, string_eq, none, refl, ◌==◌, [], if◌then◌else◌, some, false, ◌∷◌, Option, List, String,
}
use vcpe.Persist.Leases.{list_ipam_leases}
use vcpe.Net.{prefix_overlaps, Prefix}
use vcpe.Ipam.Conflicts.{apply-NoOverlap, NoOverlap}
use vcpe.Manifest.{Network}
use vcpe.Persist.Tables.{empty, Store}

abbrev pub parse : String → Option Prefix
parse text =
    if text == "10.1.0.0/24"
    then some (record { width = 32; addr = 167837696; bits = 24 })
    else if text == "10.2.0.0/24"
    then some (record { width = 32; addr = 167903232; bits = 24 })
    else none

abbrev pub network : String → String → Network
network role cidr = record {
  role = role;
  bridge = "br0";
  nat = false;
  firewall = false;
  ipv4 = some (record { cidr = cidr; gateway = ""; pool = none });
  ipv6 = none;
  driver = "";
  driver_options = [];
  ipam_driver = "";
}

abbrev pub lab_networks : List Network
lab_networks = network "wan" "10.1.0.0/24" ∷ []

abbrev pub other_leases : Store
other_leases = record empty {
  ipam_leases = record { customer_id = "office"; role = "wan"; cidr = "10.2.0.0/24" } ∷ [];
}

-- The same range again is refused.
refuses_the_same_range :
    check_conflicts parse "lab" (network "wan" "10.2.0.0/24" ∷ []) other_leases
    ≡ err (
        overlaps_existing "10.2.0.0/24"
          (record { customer_id = "office"; role = "wan"; cidr = "10.2.0.0/24" }))
unfolding check_conflicts requests request_cidrs network_cidrs check_requested check_existing
    check_leases check_later overlaps prefix_overlaps load list_ipam_leases
refuses_the_same_range = refl

pub accepted : check_conflicts parse "lab" lab_networks other_leases ≡ ok (1, 1)
unfolding check_conflicts requests request_cidrs network_cidrs check_requested check_existing
    check_leases check_later overlaps prefix_overlaps load list_ipam_leases
accepted = refl

apply-NoOverlap_example : NoOverlap parse (apply "lab" lab_networks other_leases).1.ipam_leases
apply-NoOverlap_example =
    apply-NoOverlap parse "lab" lab_networks other_leases (refl, tt) (refl, tt) accepted (tt, tt)
