-- ===== src/Manifest.antt =====
-- controlplane/internal/manifest/model.go: the desired-state manifest. A pointer is an `Option`, a
-- map a list of pairs, and the opaque `config` subtree its text.
pub mod Networks
pub mod Validate
pub mod Interfaces
pub mod Dependencies
mod Tests
use vcpe.Common.{string_eq, [], ◌||◌, ◌==◌, ◌≡◌, false, ◌∷◌, ℕ, String, Bool, List, Option}
use vcpe.Common.Int.{ℤ}

pub record Metadata : Type 0 where
  pub name : String
  pub labels : List (String × String)
  pub annotations : List (String × String)

pub record Pool : Type 0 where
  pub start : String
  pub end : String

pub record AddressFamily : Type 0 where
  pub cidr : String
  pub gateway : String
  pub pool : Option Pool

pub record Network : Type 0 where
  pub role : String
  pub bridge : String
  pub nat : Bool
  pub firewall : Bool
  pub ipv4 : Option AddressFamily
  pub ipv6 : Option AddressFamily
  pub driver : String
  pub driver_options : List (String × String)
  pub ipam_driver : String

pub record Image : Type 0 where
  pub repository : String
  pub tag : String
  pub build_context : String
  pub containerfile : String
  pub pull_policy : String
  pub platforms : List String

pub record Interface : Type 0 where
  pub role : String
  pub device : String
  pub bridge : String
  pub mac : String
  pub ipv4 : String
  pub ipv6 : String
  pub default_route : Bool
  pub addressing : String

pub record BridgeSpec : Type 0 where
  pub name : String
  pub ipv4 : String
  pub ipv6 : String
  pub dhcp_start : String
  pub dhcp_end : String

pub record Service : Type 0 where
  pub name : String
  pub type : String
  pub replicas : ℤ
  pub image : Image
  pub depends_on : List String
  pub interfaces : List Interface
  pub bridges : List BridgeSpec
  pub ports : List String
  pub volumes : List String
  pub config : String

pub record SecretRef : Type 0 where
  pub name : String
  pub provider : String
  pub key : String

pub record Spec : Type 0 where
  pub networks : List Network
  pub services : List Service
  pub secrets : List SecretRef
  pub max_replicas_per_service : ℤ
  pub max_active_deployments : ℤ

pub record Document : Type 0 where
  pub api_version : String
  pub kind : String
  pub metadata : Metadata
  pub spec : Spec

-- What Validate reports, with the names that its message shows.
pub data ManifestError : Type 0 where
  no_role : ManifestError
  duplicate_role : String → ManifestError
  no_nat : String → String → ManifestError
  no_firewall : String → String → ManifestError
  no_parent : String → String → ManifestError
  bad_cidr : String → String → String → ManifestError
  duplicate_cidr : String → ManifestError
  bad_gateway : String → String → String → ManifestError
  gateway_outside : String → String → String → String → ManifestError
  bad_pool_start : String → String → String → ManifestError
  bad_pool_end : String → String → String → ManifestError
  pool_outside : String → Pool → String → ManifestError
  pool_reversed : String → Pool → String → ManifestError
  interface_without_role : String → ManifestError
  unknown_role : String → String → ManifestError
  explicit_identity : String → String → ℤ → ManifestError
  bad_address : String → String → String → ManifestError
  address_outside : String → String → String → ManifestError
  dhcp_with_address : String → String → ManifestError
  static_without_address : String → String → ManifestError
  bad_addressing : String → String → String → ManifestError
  many_default_routes : String → ℕ → ManifestError
  bad_api_version : String → ManifestError
  bad_kind : String → ManifestError
  no_name : ManifestError
  no_services : ManifestError
  no_service_name : ManifestError
  duplicate_service : String → ManifestError
  no_type : String → ManifestError
  bad_replicas : String → ℤ → ManifestError
  too_many_replicas : String → ℤ → ℤ → ManifestError
  unknown_dependency : String → String → ManifestError
  self_dependency : String → ManifestError
  dependency_cycle : String → ManifestError
  bad_secret : ManifestError
  bad_provider : String → ManifestError

-- The manifest's rule that no two networks share a role.
abbrev pub role_used : String → List Network → Bool
role_used role [] = false
role_used role (n ∷ networks) = n.role == role || role_used role networks

abbrev pub DistinctRoles : List Network → Type 0
DistinctRoles [] = Unit
DistinctRoles (n ∷ networks) = (role_used n.role networks ≡ false) × DistinctRoles networks
