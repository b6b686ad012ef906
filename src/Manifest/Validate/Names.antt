-- ===== src/Manifest/Validate/Names.antt =====
-- controlplane/internal/manifest/validate.go: the names of the services that Validate accepts, and the
-- names that they depend on.
use vcpe.Common.{
  length, ltb, not, ◌⊎◌, inr, All-append, inl, eq_iff, refl, ◌==◌, Bool-cases, arith, string_eq,
  NoRepeat, [], ◌∷◌, true, All, false, contains, ◌≡◌, List, Option, keep, String,
}
use vcpe.Manifest.{unknown_dependency, Service}
use vcpe.Common.Result.{fail_if-ok, >>-ok, ok}
use vcpe.Manifest.Networks.{Roles}
use vcpe.Manifest.Validate.{
  has_dependencies, check_services, service_names, check_all_depends_on, check_depends_on,
  check_service, dependencies,
}
use vcpe.Net.{Addr, Prefix}
use vcpe.Common.Int.{ℤ}

name-new :
    (limit : ℤ) (svc : Service) (names : List String)
    → check_service limit svc names ≡ ok tt
    → contains names svc.name ≡ false
unfolding check_service
name-new limit svc names h =
    let (a, _) = >>-ok _ _ h in
    let (b, _) = >>-ok _ _ a in
    let (c, _) = >>-ok _ _ b in let (_, found) = >>-ok _ _ c in fail_if-ok _ _ found

module _ (parse_prefix : String → Option Prefix) (parse_addr : String → Option Addr) where
  check_services-new :
      (limit : ℤ) (roles : Roles) (services : List Service) (names : List String)
      → check_services parse_prefix parse_addr limit roles services names ≡ ok tt
      → (x : String) → contains names x ≡ true
      → contains (service_names services) x ≡ false
  unfolding check_services check_service
  check_services-new limit roles [] names h x here = refl
  check_services-new limit roles (svc ∷ services) names h x here =
      let (front, rest) = >>-ok _ _ h in
      let (checked, interfaces) = >>-ok _ _ front in
      let new = name-new limit svc names checked in
      let later =
        check_services-new limit roles services (svc.name ∷ names) rest x (ground (arith, here)) in
      ground (arith, new, later, here, eq_iff svc.name x)

  pub check_services-NoRepeat :
      (limit : ℤ) (roles : Roles) (services : List Service) (names : List String)
      → check_services parse_prefix parse_addr limit roles services names ≡ ok tt
      → NoRepeat (service_names services)
  unfolding check_services
  check_services-NoRepeat limit roles [] names h = tt
  check_services-NoRepeat limit roles (svc ∷ services) names h =
      let (front, rest) = >>-ok _ _ h in
      (
        check_services-new limit roles services (svc.name ∷ names) rest svc.name
            (ground (arith, eq_iff svc.name svc.name)),
        check_services-NoRepeat limit roles services (svc.name ∷ names) rest,
      )

check_depends_on-known :
    (known : List String) (name : String) (deps : List String)
    → check_depends_on known name deps ≡ ok tt
    → All (λ d. contains known d ≡ true) deps
unfolding check_depends_on
check_depends_on-known known name [] h = tt
check_depends_on-known known name (dep ∷ deps) h =
    let (front, rest) = >>-ok _ _ h in
    let (found, self) = >>-ok _ _ front in
    (
      ground (arith, fail_if-ok (not (contains known dep)) (unknown_dependency name dep) found),
      check_depends_on-known known name deps rest,
    )

pub dependencies-All :
    (known : List String) (services : List Service) (n : String)
    → check_all_depends_on known services ≡ ok tt
    → All (λ d. contains known d ≡ true) (dependencies services n)
unfolding check_all_depends_on dependencies
dependencies-All known [] n h = tt
dependencies-All known (svc ∷ services) n h =
    let (own, rest) = >>-ok _ _ h in
    elim (Bool-cases (svc.name == n)) [
      | inl same ↦ rw same (
          All-append (λ d. contains known d ≡ true) svc.depends_on (dependencies services n)
            (dependencies-All known services n rest)
            (check_depends_on-known known svc.name svc.depends_on own))
      | inr other ↦ rw other (dependencies-All known services n rest)
    ]

no_length : (xs : List String) → ltb 0 (length xs) ≡ false → xs ≡ []
no_length [] h = refl
no_length (x ∷ xs) h = absurd (ground (arith, h))

named_dependencies :
    (svc : Service) (services : List Service) (n : String)
    → contains (service_names (keep has_dependencies (svc ∷ services))) n ≡ false
    → ((svc.name == n) ≡ false) ⊎ (svc.depends_on ≡ [])
unfolding keep
named_dependencies svc services n h = elim (Bool-cases (has_dependencies svc)) [
  | inl has ↦ inl (ground (arith, simp has at h))
  | inr bare ↦ inr (no_length svc.depends_on bare)
]

later_names :
    (svc : Service) (services : List Service) (n : String)
    → contains (service_names (keep has_dependencies (svc ∷ services))) n ≡ false
    → contains (service_names (keep has_dependencies services)) n ≡ false
unfolding keep
later_names svc services n h = elim (Bool-cases (has_dependencies svc)) [
  | inl has ↦ ground (arith, simp has at h)
  | inr bare ↦ simp bare at h
]

-- A name has no dependencies, or stands among those that have.
pub has_dependencies-lem :
    (services : List Service) (n : String)
    → contains (service_names (keep has_dependencies services)) n ≡ false
    → dependencies services n ≡ []
unfolding dependencies
has_dependencies-lem [] n h = refl
has_dependencies-lem (svc ∷ services) n h =
    let rest = has_dependencies-lem services n (later_names svc services n h) in
    elim (named_dependencies svc services n h) [
      | inl other ↦ rw other rest
      | inr bare ↦
          rw (bare, rest)
            (elim (Bool-cases (svc.name == n)) [ inl same ↦ rw same refl | inr ne ↦ rw ne refl ])
    ]
