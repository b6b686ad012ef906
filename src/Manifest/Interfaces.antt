-- ===== src/Manifest/Interfaces.antt =====
-- controlplane/internal/manifest/validate.go: the checks of a service's interfaces.
pub mod Addressed
use vcpe.Common.{
  suc, [], ◌&&◌, ◌∷◌, some, ltb, ◌||◌, if◌then◌else◌, none, some_where, string_eq, ℕ, ◌==◌, List,
  not, Bool, Option, String,
}
use vcpe.Manifest.{
  bad_addressing, explicit_identity, static_without_address, address_outside, dhcp_with_address,
  many_default_routes, unknown_role, bad_address, interface_without_role, ManifestError, Service,
  Interface,
}
use vcpe.Common.Int.{pos, ltb_ℤ}
use vcpe.Common.Result.{◌>>◌, err, fail_if, ok, Result}
use vcpe.Net.{Prefix, prefix_contains, Addr}
use vcpe.Manifest.Networks.{Roles}

-- The prefixes of a role, if it is declared.
unfoldable pub role_prefixes : String → Roles → Option (List Prefix)
role_prefixes role [] = none
role_prefixes role ((r, prefixes) ∷ roles) =
    if r == role then some prefixes else role_prefixes role roles

abbrev pub is_given : String → Bool
is_given text = not (text == "")

-- validateAddressing
unfoldable pub validate_addressing : String → Interface → Result ManifestError (Unit {0})
validate_addressing service i =
    if is_given i.bridge
    then ok tt
    else if i.addressing == "" || i.addressing == "dhcp"
    then fail_if (is_given i.ipv4 || is_given i.ipv6) (dhcp_with_address service i.role)
    else if i.addressing == "static"
    then fail_if (i.ipv4 == "" && i.ipv6 == "") (static_without_address service i.role)
    else err (bad_addressing service i.role i.addressing)

module _ (parse_addr : String → Option Addr) where
  -- assertWithin
  unfoldable pub assert_within :
      String → String → String → List Prefix → Result ManifestError (Unit {0})
  unfolding prefix_contains some_where
  assert_within family service text prefixes = elim (parse_addr text) [
    | none ↦ err (bad_address service family text)
    | some a ↦
        fail_if (not (some_where (λ p. prefix_contains p a) prefixes))
          (address_outside service family text)
  ]

  -- One pass of the loop over the interfaces.
  unfoldable pub validate_interface : Service → Roles → Interface → Result ManifestError (Unit {0})
  unfolding assert_within validate_addressing role_prefixes
  validate_interface svc roles i =
      if i.role == ""
      then err (interface_without_role svc.name)
      else elim (role_prefixes i.role roles) [
        | none ↦ err (unknown_role svc.name i.role)
        | some prefixes ↦
            fail_if
              (ltb_ℤ (pos 1) svc.replicas
                && (is_given i.mac || (is_given i.ipv4 || is_given i.ipv6)))
              (explicit_identity svc.name i.role svc.replicas)
            >> (if is_given i.ipv4 then assert_within "ipv4" svc.name i.ipv4 prefixes else ok tt)
            >> (if is_given i.ipv6 then assert_within "ipv6" svc.name i.ipv6 prefixes else ok tt)
            >> validate_addressing svc.name i
      ]

  -- The loop of validateServiceInterfaces, with the number of default routes that were met before.
  unfoldable pub validate_interfaces :
      Service → Roles → List Interface → ℕ → Result ManifestError (Unit {0})
  unfolding validate_interface
  validate_interfaces svc roles [] routes =
      fail_if (ltb 1 routes) (many_default_routes svc.name routes)
  validate_interfaces svc roles (i ∷ interfaces) routes =
      validate_interface svc roles i
      >> validate_interfaces svc roles interfaces (if i.default_route then suc routes else routes)

  -- validateServiceInterfaces
  unfoldable pub validate_service_interfaces : Service → Roles → Result ManifestError (Unit {0})
  unfolding validate_interfaces
  validate_service_interfaces svc roles = validate_interfaces svc roles svc.interfaces 0
