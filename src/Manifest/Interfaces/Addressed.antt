-- ===== src/Manifest/Interfaces/Addressed.antt =====
-- controlplane/internal/manifest/validate.go: what holds of interfaces that the checks accept.
use vcpe.Manifest.{
  static_without_address, explicit_identity, dhcp_with_address, address_outside,
  many_default_routes, Service, Interface,
}
use vcpe.Common.{
  sym, ◌∙◌, eq_iff, ◌&&◌, ltb, not, string_eq, arith, inr, ◌||◌, inl, some_where, ◌+◌, ◌==◌, ◌≤◌,
  All, Bool-cases, Option-cases, [], false, some, suc, true, if◌then◌else◌, ◌≡◌, ◌∷◌, ℕ, Option,
  List, String,
}
use vcpe.Common.Result.{>>-ok, fail_if-ok, ok}
use vcpe.Common.Int.{pos, ltb_ℤ}
use vcpe.Net.{prefix_contains, Prefix, Addr}
use vcpe.Manifest.Interfaces.{
  role_prefixes, is_given, assert_within, validate_addressing, validate_interface,
  validate_interfaces, validate_service_interfaces,
}
use vcpe.Manifest.Networks.{Roles}

-- The interfaces that carry the default route.
abbrev pub default_routes : List Interface → ℕ
default_routes [] = 0
default_routes (i ∷ interfaces) =
    if i.default_route then suc (default_routes interfaces) else default_routes interfaces

not_static :
    (addressing : String)
    → (addressing == "" || addressing == "dhcp") ≡ true
    → (addressing == "static") ≡ false
not_static addressing h = elim (Bool-cases (addressing == "static")) [
  | inr other ↦ other
  | inl same ↦ absurd (cc (rw ((eq_iff addressing "static").0 same) at h))
]

module _ (parse_addr : String → Option Addr) where
  -- A given address parses, and one of the prefixes contains it.
  abbrev pub LiesWithin : String → List Prefix → Type 0
  LiesWithin text prefixes =
      is_given text ≡ true
      → (a : Addr) × (parse_addr text ≡ some a)
        × (some_where (λ p. prefix_contains p a) prefixes ≡ true)

  -- An interface of a declared role, with its addresses in the ranges of the role, and with an
  -- address just when it is a static one outside a bridge.
  pub record InterfaceFits (svc : Service) (roles : Roles) (i : Interface) : Type 0 where
    pub prefixes : List Prefix
    pub declared : role_prefixes i.role roles ≡ some prefixes
    pub single :
        ltb_ℤ (pos 1) svc.replicas ≡ true
        → (is_given i.mac || (is_given i.ipv4 || is_given i.ipv6)) ≡ false
    pub four : LiesWithin i.ipv4 prefixes
    pub six : LiesWithin i.ipv6 prefixes
    pub addressed :
        is_given i.bridge ≡ false
        → (i.addressing == "static") ≡ (is_given i.ipv4 || is_given i.ipv6)

  assert_within-ok :
      (family service text : String) (prefixes : List Prefix)
      → (if is_given text then assert_within parse_addr family service text prefixes else ok tt)
        ≡ ok tt
      → LiesWithin text prefixes
  unfolding assert_within
  assert_within-ok family service text prefixes h given = elim (Option-cases (parse_addr text)) [
    | inl bad ↦ cc (simp (given, bad, assert_within) at h)
    | inr (a, e) ↦
        let inside =
          fail_if-ok (not (some_where (λ p. prefix_contains p a) prefixes))
            (address_outside service family text) (simp (given, e, assert_within) at h) in
        (a, e, ground (arith, inside))
  ]

  validate_addressing-ok :
      (service : String) (i : Interface)
      → validate_addressing service i ≡ ok tt
      → is_given i.bridge ≡ false
      → (i.addressing == "static") ≡ (is_given i.ipv4 || is_given i.ipv6)
  unfolding validate_addressing
  validate_addressing-ok service i h free =
      elim (Bool-cases (i.addressing == "" || i.addressing == "dhcp")) [
        | inl dhcp ↦
            let bare =
              fail_if-ok (is_given i.ipv4 || is_given i.ipv6) (dhcp_with_address service i.role)
                (simp (free, dhcp, validate_addressing) at h) in
            not_static i.addressing dhcp ∙ sym bare
        | inr other ↦ elim (Bool-cases (i.addressing == "static")) [
          | inl static ↦
              let some_address =
                fail_if-ok (i.ipv4 == "" && i.ipv6 == "") (static_without_address service i.role)
                  (simp (free, other, static, validate_addressing) at h) in
              static ∙ ground (arith, some_address)
          | inr bad ↦ cc (simp (free, other, bad, validate_addressing) at h)
        ]
      ]

  validate_interface-ok :
      (svc : Service) (roles : Roles) (i : Interface)
      → validate_interface parse_addr svc roles i ≡ ok tt
      → InterfaceFits svc roles i
  unfolding validate_interface
  validate_interface-ok svc roles i h = elim (Bool-cases (i.role == "")) [
    | inl bare ↦ cc (simp (bare, validate_interface) at h)
    | inr named ↦ elim (Option-cases (role_prefixes i.role roles)) [
      | inl bad ↦ cc (simp (named, bad, validate_interface) at h)
      | inr (prefixes, e) ↦
          let (front, addressing) = >>-ok _ _ (simp (named, e, validate_interface) at h) in
          let (middle, six) = >>-ok _ _ front in
          let (single, four) = >>-ok _ _ middle in
          record {
            prefixes = prefixes;
            declared = e;
            single = λ several. simp (several) at (
                fail_if-ok
                  (ltb_ℤ (pos 1) svc.replicas
                    && (is_given i.mac || (is_given i.ipv4 || is_given i.ipv6)))
                  (explicit_identity svc.name i.role svc.replicas) single);
            four = assert_within-ok "ipv4" svc.name i.ipv4 prefixes four;
            six = assert_within-ok "ipv6" svc.name i.ipv6 prefixes six;
            addressed = validate_addressing-ok svc.name i addressing;
          }
    ]
  ]

  validate_interfaces-ok :
      (svc : Service) (roles : Roles) (interfaces : List Interface) (routes : ℕ)
      → validate_interfaces parse_addr svc roles interfaces routes ≡ ok tt
      → All (InterfaceFits svc roles) interfaces × (routes + default_routes interfaces ≤ 1)
  unfolding validate_interfaces
  validate_interfaces-ok svc roles [] routes h =
      (tt, ground (arith, fail_if-ok (ltb 1 routes) (many_default_routes svc.name routes) h))
  validate_interfaces-ok svc roles (i ∷ interfaces) routes h =
      let (first, rest) = >>-ok _ _ h in
      let (fit, few) =
        validate_interfaces-ok svc roles interfaces (if i.default_route then suc routes else routes)
          rest in
      ((validate_interface-ok svc roles i first, fit), ground (arith, few))

  -- A service that validateServiceInterfaces accepts has at most one default route, and each of its
  -- interfaces has a declared role, given addresses inside the ranges of that role, no explicit MAC or
  -- address beside several replicas, and, outside a bridge, an address just when it is static.
  pub validate_service_interfaces-ok :
      (svc : Service) (roles : Roles)
      → validate_service_interfaces parse_addr svc roles ≡ ok tt
      → All (InterfaceFits svc roles) svc.interfaces × (default_routes svc.interfaces ≤ 1)
  unfolding validate_service_interfaces
  validate_service_interfaces-ok svc roles h =
      let (fit, few) = validate_interfaces-ok svc roles svc.interfaces 0 h in
      (fit, omega (arith, few))
