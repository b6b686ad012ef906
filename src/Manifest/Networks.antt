-- ===== src/Manifest/Networks.antt =====
-- controlplane/internal/manifest/validate.go: the checks of the declared networks. `parse_prefix` is
-- netip.ParsePrefix and `parse_addr` is netip.ParseAddr. The code ranges over the two families as over a
-- map; here IPv4 comes first, which decides only the error that a network with two of them gets.
pub mod Accepted
use vcpe.Manifest.{
  pool_reversed, duplicate_cidr, pool_outside, bad_pool_end, gateway_outside, no_parent, bad_cidr,
  bad_gateway, bad_pool_start, duplicate_role, no_firewall, no_nat, no_role, AddressFamily, Pool,
  ManifestError, Network,
}
use vcpe.Common.{
  contains, ◌++◌, none, string_eq, ◌&&◌, ◌||◌, [], if◌then◌else◌, some, ◌==◌, ◌∷◌, not, false, Bool,
  Option, List, String,
}
use vcpe.Common.Result.{err, ◌>>◌, ◌>>=◌, fail_if, ok, Result}
use vcpe.Net.{addr_after, prefix_contains, Addr, Prefix}

-- A lookup in a map of texts; a missing key yields the empty text.
unfoldable pub option_value : String → List (String × String) → String
option_value key [] = ""
option_value key ((k, value) ∷ rows) = if k == key then value else option_value key rows

abbrev pub Roles : Type 0
Roles = List (String × List Prefix)

unfoldable pub has_role : String → Roles → Bool
has_role role [] = false
has_role role ((r, prefixes) ∷ roles) = r == role || has_role role roles

-- The checks of the driver.
unfoldable pub check_driver : Network → Result ManifestError (Unit {0})
unfolding option_value
check_driver n =
    let other = not (n.driver == "") && not (n.driver == "bridge") in
    let parent = n.driver == "macvlan" || n.driver == "ipvlan" in
    fail_if (other && n.nat) (no_nat n.role n.driver)
    >> fail_if (other && n.firewall) (no_firewall n.role n.driver)
    >> fail_if (parent && (option_value "parent" n.driver_options == ""))
        (no_parent n.role n.driver)

module _ (parse_prefix : String → Option Prefix) (parse_addr : String → Option Addr) where
  -- validatePool
  unfoldable pub validate_pool : String → String → Prefix → Pool → Result ManifestError (Unit {0})
  unfolding prefix_contains addr_after
  validate_pool family role prefix pool = elim (parse_addr pool.start) [
    | none ↦ err (bad_pool_start family pool.start role)
    | some start ↦ elim (parse_addr pool.end) [
      | none ↦ err (bad_pool_end family pool.end role)
      | some end ↦
          fail_if (not (prefix_contains prefix start) || not (prefix_contains prefix end))
            (pool_outside family pool role)
          >> fail_if (addr_after start end) (pool_reversed family pool role)
    ]
  ]

  unfoldable pub validate_gateway :
      String → String → Prefix → AddressFamily → Result ManifestError (Unit {0})
  unfolding prefix_contains
  validate_gateway family role prefix f =
      if f.gateway == "" then ok tt else elim (parse_addr f.gateway) [
        | none ↦ err (bad_gateway family f.gateway role)
        | some gw ↦
            fail_if (not (prefix_contains prefix gw)) (gateway_outside family f.gateway f.cidr role)
      ]

  abbrev pub validate_pools :
      String → String → Prefix → Option Pool → Result ManifestError (Unit {0})
  validate_pools family role prefix none = ok tt
  validate_pools family role prefix (some pool) = validate_pool family role prefix pool

  -- One family of a network, with the CIDR texts that were met before.
  unfoldable pub validate_family :
      String
      → String
      → Option AddressFamily
      → List String
      → Result ManifestError (List Prefix × List String)
  unfolding validate_gateway validate_pool
  validate_family family role none cidrs = ok ([], cidrs)
  validate_family family role (some f) cidrs = elim (parse_prefix f.cidr) [
    | none ↦ err (bad_cidr family f.cidr role)
    | some prefix ↦
        fail_if (contains cidrs f.cidr) (duplicate_cidr f.cidr)
        >> validate_gateway family role prefix f
        >> validate_pools family role prefix f.pool
        >> ok (prefix ∷ [], f.cidr ∷ cidrs)
  ]

  -- One pass of the loop over the networks.
  unfoldable pub validate_network :
      Network → Roles → List String → Result ManifestError (Roles × List String)
  unfolding has_role check_driver validate_family
  validate_network n roles cidrs =
      fail_if (n.role == "") no_role
      >> fail_if (has_role n.role roles) (duplicate_role n.role)
      >> check_driver n
      >> (validate_family "ipv4" n.role n.ipv4 cidrs >>= λ four.
          validate_family "ipv6" n.role n.ipv6 four.1 >>= λ six.
          ok ((n.role, four.0 ++ six.0) ∷ roles, six.1))

  -- validateNetworks, from the roles and the CIDR texts that were met before.
  unfoldable pub validate_networks : List Network → Roles → List String → Result ManifestError Roles
  unfolding validate_network
  validate_networks [] roles cidrs = ok roles
  validate_networks (n ∷ networks) roles cidrs =
      validate_network n roles cidrs >>= λ next. validate_networks networks next.0 next.1
