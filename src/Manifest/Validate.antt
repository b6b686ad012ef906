-- ===== src/Manifest/Validate.antt =====
-- controlplane/internal/manifest/validate.go: Validate, with the checks of services, dependencies and
-- secrets. The code searches for a cycle from the keys of a map in any order; here the services
-- with dependencies come in the order of the document.
pub mod Accepted
pub mod Names
use vcpe.Common.{
  nat_eq, ◌&&◌, string_eq, contains, ◌++◌, ◌||◌, [], length, not, ◌==◌, if◌then◌else◌, ltb, Bool,
  Option, map, ◌∷◌, List, String, keep,
}
use vcpe.Manifest.{
  too_many_replicas, bad_replicas, no_services, no_name, bad_kind, bad_api_version, bad_provider,
  no_type, self_dependency, Document, bad_secret, dependency_cycle, duplicate_service,
  unknown_dependency, Spec, no_service_name, ManifestError, SecretRef, Service,
}
use vcpe.Common.Result.{◌>>=◌, err, fail_if, ok, ◌>>◌, Result}
use vcpe.Common.Int.{pos, ltb_ℤ, ℤ}
use vcpe.Manifest.Dependencies.{out_of_fuel, cycle, CycleError, detect_cycle}
use vcpe.Manifest.Networks.{Roles, validate_networks}
use vcpe.Manifest.Interfaces.{validate_service_interfaces}
use vcpe.Net.{Addr, Prefix}

abbrev pub required_api_version : String
required_api_version = "vcpe.dev/v1"

abbrev pub required_kind : String
required_kind = "Deployment"

-- The checks of one service, but for its interfaces, with the names that were met before.
unfoldable pub check_service : ℤ → Service → List String → Result ManifestError (Unit {0})
check_service limit svc names =
    fail_if (svc.name == "") no_service_name
    >> fail_if (contains names svc.name) (duplicate_service svc.name)
    >> fail_if (svc.type == "") (no_type svc.name)
    >> fail_if (ltb_ℤ svc.replicas (pos 0)) (bad_replicas svc.name svc.replicas)
    >> fail_if (ltb_ℤ (pos 0) limit && ltb_ℤ limit svc.replicas)
        (too_many_replicas svc.name svc.replicas limit)

-- The inner loop of validateDependsOn.
unfoldable pub check_depends_on :
    List String → String → List String → Result ManifestError (Unit {0})
check_depends_on known name [] = ok tt
check_depends_on known name (dep ∷ deps) =
    let rest = check_depends_on known name deps in
    fail_if (not (contains known dep)) (unknown_dependency name dep)
    >> fail_if (dep == name) (self_dependency name)
    >> rest

unfoldable pub check_all_depends_on : List String → List Service → Result ManifestError (Unit {0})
unfolding check_depends_on
check_all_depends_on known [] = ok tt
check_all_depends_on known (svc ∷ services) =
    check_depends_on known svc.name svc.depends_on >> check_all_depends_on known services

-- graph[name], and the keys of the graph.
unfoldable pub dependencies : List Service → String → List String
dependencies [] name = []
dependencies (svc ∷ services) name =
    let rest = dependencies services name in
    if svc.name == name then svc.depends_on ++ rest else rest

abbrev pub has_dependencies : Service → Bool
has_dependencies svc = ltb 0 (length svc.depends_on)

abbrev pub service_names : List Service → List String
service_names services = map (λ s. s.name) services

unfoldable pub cycle_error : Result CycleError (List String) → Result ManifestError (Unit {0})
cycle_error (ok order) = ok tt
cycle_error (err (cycle service)) = err (dependency_cycle service)
cycle_error (err out_of_fuel) = err (dependency_cycle "")

-- validateDependsOn
unfoldable pub validate_depends_on : List Service → Result ManifestError (Unit {0})
unfolding check_all_depends_on dependencies keep cycle_error detect_cycle
validate_depends_on services =
    check_all_depends_on (service_names services) services
    >> cycle_error
        (detect_cycle (dependencies services) (service_names (keep has_dependencies services)))

-- validateSecrets
unfoldable pub validate_secrets : List SecretRef → Result ManifestError (Unit {0})
validate_secrets [] = ok tt
validate_secrets (s ∷ secrets) =
    fail_if (s.name == "" || (s.provider == "" || s.key == "")) bad_secret
    >> fail_if (not (s.provider == "env" || s.provider == "file")) (bad_provider s.provider)
    >> validate_secrets secrets

module _ (parse_prefix : String → Option Prefix) (parse_addr : String → Option Addr) where
  -- The loop of validateServices, with the names that were met before.
  unfoldable pub check_services :
      ℤ → Roles → List Service → List String → Result ManifestError (Unit {0})
  unfolding check_service validate_service_interfaces
  check_services limit roles [] names = ok tt
  check_services limit roles (svc ∷ services) names =
      check_service limit svc names
      >> validate_service_interfaces parse_addr svc roles
      >> check_services limit roles services (svc.name ∷ names)

  -- validateServices
  unfoldable pub validate_services : Spec → Roles → Result ManifestError (Unit {0})
  unfolding check_services validate_depends_on
  validate_services spec roles =
      check_services spec.max_replicas_per_service roles spec.services []
      >> validate_depends_on spec.services

  -- Validate
  unfoldable pub validate : Document → Result ManifestError (Unit {0})
  unfolding validate_networks validate_services validate_secrets
  validate doc =
      fail_if (not (doc.api_version == required_api_version)) (bad_api_version doc.api_version)
      >> fail_if (not (doc.kind == required_kind)) (bad_kind doc.kind)
      >> fail_if (doc.metadata.name == "") no_name
      >> fail_if (length doc.spec.services == 0) no_services
      >> (validate_networks parse_prefix parse_addr doc.spec.networks [] [] >>= λ roles.
          validate_services doc.spec roles)
      >> validate_secrets doc.spec.secrets
