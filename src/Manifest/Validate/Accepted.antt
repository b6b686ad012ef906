-- ===== src/Manifest/Validate/Accepted.antt =====
-- controlplane/internal/manifest/validate.go: what holds of a document that Validate accepts.
use vcpe.Common.{
  NoRepeat, inl, inr, string_eq, keep, true, [], contains, ◌≤◌, ◌∷◌, All, List, ◌≡◌, Option, String,
}
use vcpe.Manifest.Dependencies.{out_of_fuel, cycle, detect_cycle}
use vcpe.Manifest.Validate.Names.{check_services-NoRepeat, dependencies-All}
use vcpe.Manifest.Validate.{
  check_all_depends_on, has_dependencies, service_names, dependencies, cycle_error,
  validate_services, check_services, validate, validate_depends_on,
}
use vcpe.Manifest.Dependencies.Order.{detect_cycle-ok, IsOrder}
use vcpe.Common.Result.{Result-cases, >>=-ok, >>-ok, ok}
use vcpe.Manifest.Networks.Accepted.{validate_networks-ok, NetworkFits}
use vcpe.Manifest.Networks.{validate_networks, Roles}
use vcpe.Manifest.Interfaces.Addressed.{
  validate_service_interfaces-ok, default_routes, InterfaceFits,
}
use vcpe.Common.Int.{ℤ}
use vcpe.Manifest.{DistinctRoles, Service, Document}
use vcpe.Net.{Addr, Prefix}

module _ (parse_prefix : String → Option Prefix) (parse_addr : String → Option Addr) where
  -- At most one default route, and interfaces that fit the roles.
  abbrev pub ServiceFits : Roles → Service → Type 0
  ServiceFits roles svc =
      All (InterfaceFits parse_addr svc roles) svc.interfaces × (default_routes svc.interfaces ≤ 1)

  check_services-ok :
      (limit : ℤ) (roles : Roles) (services : List Service) (names : List String)
      → check_services parse_prefix parse_addr limit roles services names ≡ ok tt
      → All (ServiceFits roles) services
  unfolding check_services
  check_services-ok limit roles [] names h = tt
  check_services-ok limit roles (svc ∷ services) names h =
      let (front, rest) = >>-ok _ _ h in
      let (checked, interfaces) = >>-ok _ _ front in
      (
        validate_service_interfaces-ok parse_addr svc roles interfaces,
        check_services-ok limit roles services (svc.name ∷ names) rest,
      )

  validate_depends_on-ok :
      (services : List Service)
      → validate_depends_on services ≡ ok tt
      → (order : List String) × IsOrder (dependencies services) order
        × All
            (λ (n : String). contains order n ≡ true)
            (service_names (keep has_dependencies services))
        × (check_all_depends_on (service_names services) services ≡ ok tt)
  unfolding validate_depends_on cycle_error
  validate_depends_on-ok services h =
      let nodes = service_names (keep has_dependencies services) in
      let (known, acyclic) =
        >>-ok (check_all_depends_on (service_names services) services)
          (cycle_error (detect_cycle (dependencies services) nodes)) h in
      elim (Result-cases (detect_cycle (dependencies services) nodes)) [
        | inr (order, found) ↦
            let (ordered, complete) = detect_cycle-ok (dependencies services) nodes found in
            (order, ordered, complete, known)
        | inl (cycle service, failed) ↦ cc (simp (failed, cycle_error) at acyclic)
        | inl (out_of_fuel, failed) ↦ cc (simp (failed, cycle_error) at acyclic)
      ]

  -- What Validate guarantees.
  pub record IsValid (doc : Document) : Type 0 where
    pub roles : Roles
    pub distinct : DistinctRoles doc.spec.networks
    pub networks : All (NetworkFits parse_prefix parse_addr) doc.spec.networks
    pub services : All (ServiceFits roles) doc.spec.services
    pub order : List String
    pub ordered : IsOrder (dependencies doc.spec.services) order
    pub complete :
        All
          (λ (n : String). contains order n ≡ true)
          (service_names (keep has_dependencies doc.spec.services))
    pub names : NoRepeat (service_names doc.spec.services)
    pub known :
        (n : String)
        → All
            (λ d. contains (service_names doc.spec.services) d ≡ true)
            (dependencies doc.spec.services n)

  pub validate-IsValid :
      (doc : Document) → validate parse_prefix parse_addr doc ≡ ok tt → IsValid doc
  unfolding validate validate_services
  validate-IsValid doc h =
      let (front, secrets) = >>-ok _ _ h in
      let (head, body) = >>-ok _ _ front in
      let (roles, rest, found) =
        >>=-ok (validate_networks parse_prefix parse_addr doc.spec.networks [] []) _ body in
      let (distinct, fit) = validate_networks-ok parse_prefix parse_addr doc.spec.networks found in
      let (services, depends) = >>-ok _ _ rest in
      let (order, ordered, complete, known) = validate_depends_on-ok doc.spec.services depends in
      record {
        roles = roles;
        distinct = distinct;
        networks = fit;
        services =
            check_services-ok doc.spec.max_replicas_per_service roles doc.spec.services [] services;
        order = order;
        ordered = ordered;
        complete = complete;
        names =
            check_services-NoRepeat parse_prefix parse_addr doc.spec.max_replicas_per_service roles
              doc.spec.services [] services;
        known = λ n. dependencies-All (service_names doc.spec.services) doc.spec.services n known;
      }
