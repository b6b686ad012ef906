-- ===== src/Ipam.antt =====
-- controlplane/internal/ipam/store.go: which network ranges a deployment may lease, and the leases
-- that it gets. `parse_prefix` is netip.ParsePrefix.
pub mod Allocate
pub mod Conflicts
pub mod Tests
use vcpe.Common.{
  length, false, none, string_eq, Bool, some, ℕ, ◌==◌, [], if◌then◌else◌, ◌++◌, List, ◌∷◌, Option,
  String,
}
use vcpe.Common.Result.{◌>>=◌, err, ◌>>◌, ok, Result}
use vcpe.Persist.Leases.{replace_customer_leases, list_ipam_leases}
use vcpe.Net.{prefix_overlaps, Prefix}
use vcpe.Persist.Tables.{StoreError, IpamLease, Store}
use vcpe.Manifest.{AddressFamily, Network}

pub data IpamError : Type 0 where
  invalid_cidr : String → String → IpamError
  overlaps_requested : String → String → IpamError
  overlaps_existing : String → IpamLease → IpamError
  lease_failed : StoreError → IpamError

pub record Request : Type 0 where
  pub role : String
  pub cidr : String

abbrev pub family_cidr : Option AddressFamily → List String
family_cidr none = []
family_cidr (some f) = if f.cidr == "" then [] else f.cidr ∷ []

-- networkCIDRs
unfoldable pub network_cidrs : Network → List String
network_cidrs n = family_cidr n.ipv4 ++ family_cidr n.ipv6

abbrev pub first_cidr : List String → List String → String
first_cidr (cidr ∷ rest) others = cidr
first_cidr [] (cidr ∷ rest) = cidr
first_cidr [] [] = ""

-- PrimaryCIDR
unfoldable pub primary_cidr : Network → String
unfolding network_cidrs
primary_cidr n = first_cidr (family_cidr n.ipv4) (family_cidr n.ipv6)

-- The leases that Apply writes.
unfoldable pub leases_for : String → List Network → List IpamLease
unfolding primary_cidr
leases_for deployment [] = []
leases_for deployment (n ∷ networks) =
    let rest = leases_for deployment networks in
    if primary_cidr n == ""
    then rest
    else record { customer_id = deployment; role = n.role; cidr = primary_cidr n } ∷ rest

-- Apply
unfoldable pub apply : String → List Network → Store → Result StoreError (Unit {0}) × Store
apply deployment networks st =
    replace_customer_leases deployment (leases_for deployment networks) st

-- Load: a `Lease` has the fields of its row.
unfoldable pub load : Store → List IpamLease
unfolding list_ipam_leases
load st = list_ipam_leases st

module _ (parse_prefix : String → Option Prefix) where
  -- overlaps: a text that does not parse overlaps nothing.
  unfoldable pub overlaps : String → String → Bool
  unfolding prefix_overlaps
  overlaps a b = elim (parse_prefix a) [
    | none ↦ false
    | some pa ↦ elim (parse_prefix b) [ none ↦ false | some pb ↦ prefix_overlaps pa pb ]
  ]

  -- The inner loop over the ranges of one network.
  unfoldable pub request_cidrs : String → List String → Result IpamError (List Request)
  request_cidrs role [] = ok []
  request_cidrs role (cidr ∷ cidrs) =
      let rest = request_cidrs role cidrs in
      elim (parse_prefix cidr) [
        | none ↦ err (invalid_cidr cidr role)
        | some p ↦ (do more ← rest; ok (record { role = role; cidr = cidr } ∷ more))
      ]

  -- The requested ranges; a network that the containers manage has none.
  unfoldable pub requests : List Network → Result IpamError (List Request)
  unfolding request_cidrs network_cidrs
  requests [] = ok []
  requests (n ∷ networks) =
      let rest = requests networks in
      if n.ipam_driver == "none"
      then rest
      else (do here ← request_cidrs n.role (network_cidrs n); more ← rest; ok (here ++ more))

  -- The loop over j, for one i.
  unfoldable pub check_later : Request → List Request → Result IpamError (Unit {0})
  check_later r [] = ok tt
  check_later r (q ∷ qs) =
      let rest = check_later r qs in
      if r.role == q.role
      then rest
      else if overlaps r.cidr q.cidr
      then err (overlaps_requested r.cidr q.cidr)
      else rest

  unfoldable pub check_requested : List Request → Result IpamError (Unit {0})
  unfolding check_later
  check_requested [] = ok tt
  check_requested (r ∷ rs) = let rest = check_requested rs in check_later r rs >> rest

  unfoldable pub check_leases : String → Request → List IpamLease → Result IpamError (Unit {0})
  check_leases deployment r [] = ok tt
  check_leases deployment r (l ∷ leases) =
      let rest = check_leases deployment r leases in
      if l.customer_id == deployment
      then rest
      else if overlaps r.cidr l.cidr
      then err (overlaps_existing r.cidr l)
      else rest

  unfoldable pub check_existing :
      String → List Request → List IpamLease → Result IpamError (Unit {0})
  unfolding check_leases
  check_existing deployment [] leases = ok tt
  check_existing deployment (r ∷ rs) leases =
      let rest = check_existing deployment rs leases in check_leases deployment r leases >> rest

  -- CheckConflicts; the diagnostics are the numbers of leases and of requests that were checked.
  unfoldable pub check_conflicts : String → List Network → Store → Result IpamError (ℕ × ℕ)
  unfolding requests check_requested check_existing load
  check_conflicts deployment networks st = do
    requested ← requests networks
    check_requested requested
    check_existing deployment requested (load st)
    ok (length (load st), length requested)
