-- ===== src/Ipam/Allocate/Taken.antt =====
-- controlplane/internal/ipam/store.go: the addresses that AllocateInterfaces must keep clear of, the gateways of the networks and
-- those that the plan spells out.
use vcpe.Common.Result.{ok-injective, >>=-ok, ok}
use vcpe.Common.{
  subst, false, ◌&&◌, NoRepeat, contains-append, refl, arith, eq_iff, ap, ◌∙◌, sym, ◌||◌,
  Option-cases, inr, inl, string_eq, Bool-cases, some, [], true, none, ◌++◌, ◌==◌, ◌≡◌, contains,
  if◌then◌else◌, ◌∷◌, List, Option, String,
}
use vcpe.Ipam.Allocate.{
  Books, seed6, seed4, allocate_services, empty_book, allocate_interfaces, mark, Texts, Book, Books,
  addr_eq, mark_gateway, mark_gateways, mark_interfaces, mark_instances, mark_services,
}
use vcpe.Plan.{Network, Interface, Instance, Service, Deployment, Family}
use vcpe.Ipam.Allocate.Fresh.{put-grows}
use vcpe.Net.{Addr}
use vcpe.Ipam.Allocate.Handed.{handed}
use vcpe.Ipam.Allocate.Distinct.{of_services, of_instances, services-HandsBoth}

module _ (texts : Texts) where
  -- What one text reserves for a role.
  abbrev pub taken_text : String → String → String → List Addr
  taken_text role owner text =
      if owner == role then elim (texts.parse text) [ none ↦ [] | some a ↦ a ∷ [] ] else []

  unfoldable pub explicit : (Interface → String) → String → List Interface → List Addr
  explicit address role [] = []
  explicit address role (i ∷ interfaces) =
      taken_text role i.role (address i) ++ explicit address role interfaces

  abbrev pub gateway_of : (Network → Option Family) → String → Network → List Addr
  gateway_of family role n = elim (family n) [
    | none ↦ []
    | some f ↦ taken_text role n.role f.gateway
  ]

  unfoldable pub gateways : (Network → Option Family) → String → List Network → List Addr
  gateways family role [] = []
  gateways family role (n ∷ networks) = gateway_of family role n ++ gateways family role networks

  -- Marking a text keeps what is used, and adds what the text reserves.
  mark-takes :
      (owner text role : String) (b : Book) (a : Addr)
      → (contains (b.used role) a || contains (taken_text role owner text) a) ≡ true
      → contains ((mark texts owner text b).used role) a ≡ true
  unfolding mark
  mark-takes owner text role b a here = elim (Option-cases (texts.parse text)) [
    | inl bad ↦
        let kept : contains (b.used role) a ≡ true = ground (arith, simp (bad) at here) in
        elim (Bool-cases (text == "")) [
          | inl empty ↦ rw (mark, empty) kept
          | inr full ↦ rw (mark, full, bad) kept
        ]
    | inr (c, read) ↦ elim (Bool-cases (text == "")) [
      | inl empty ↦ cc (sym read ∙ ap texts.parse ((eq_iff text "").0 empty) ∙ texts.parse-empty)
      | inr full ↦ elim (Bool-cases (owner == role)) [
        | inl own ↦
            let same = (eq_iff owner role).0 own in
            rw (mark, full, read, same, (eq_iff role role).1 refl)
              (ground (arith, simp (read, own) at here))
        | inr ne ↦
            rw (mark, full, read)
              (put-grows texts role owner c a b.used (ground (arith, simp (read, ne) at here)))
      ]
    ]
  ]

  mark_gateway-takes :
      (n : Network) (family : Network → Option Family) (role : String) (b : Book) (a : Addr)
      → (contains (b.used role) a || contains (gateway_of family role n) a) ≡ true
      → contains ((mark_gateway texts n.role (family n) b).used role) a ≡ true
  unfolding mark_gateway
  mark_gateway-takes n family role b a here = elim (Option-cases (family n)) [
    | inl off ↦ rw (mark_gateway, off) (ground (arith, simp (gateway_of, off) at here))
    | inr (f, on) ↦
        rw (mark_gateway, on) (mark-takes n.role f.gateway role b a (simp (gateway_of, on) at here))
  ]

  pub mark_gateways-takes :
      (networks : List Network) (family : Network → Option Family) (role : String) (b : Book)
      (a : Addr)
      → (contains (b.used role) a || contains (gateways family role networks) a) ≡ true
      → contains ((mark_gateways texts family networks b).used role) a ≡ true
  unfolding mark_gateways gateways
  mark_gateways-takes [] family role b a here = ground (arith, here)
  mark_gateways-takes (n ∷ networks) family role b a here =
      mark_gateways-takes networks family role (mark_gateway texts n.role (family n) b) a (
        ground (
          arith,
          here,
          contains-append (gateway_of family role n) (gateways family role networks) a,
          mark_gateway-takes n family role b a,
        ))

  mark_interfaces-takes :
      (interfaces : List Interface) (address : Interface → String) (role : String) (b : Book)
      (a : Addr)
      → (contains (b.used role) a || contains (explicit address role interfaces) a) ≡ true
      → contains ((mark_interfaces texts address interfaces b).used role) a ≡ true
  unfolding mark_interfaces explicit
  mark_interfaces-takes [] address role b a here = ground (arith, here)
  mark_interfaces-takes (i ∷ interfaces) address role b a here =
      mark_interfaces-takes interfaces address role (mark texts i.role (address i) b) a (
        ground (
          arith,
          here,
          contains-append (taken_text role i.role (address i)) (explicit address role interfaces) a,
          mark-takes i.role (address i) role b a,
        ))

  explicit-append :
      (address : Interface → String) (role : String) (a : Addr) (xs ys : List Interface)
      → contains (explicit address role (xs ++ ys)) a
        ≡ (contains (explicit address role xs) a || contains (explicit address role ys) a)
  unfolding explicit
  explicit-append address role a [] ys = refl
  explicit-append address role a (x ∷ xs) ys = ground (
    arith,
    contains-append (taken_text role x.role (address x)) (explicit address role (xs ++ ys)) a,
    contains-append (taken_text role x.role (address x)) (explicit address role xs) a,
    explicit-append address role a xs ys,
  )

  mark_instances-takes :
      (instances : List Instance) (address : Interface → String) (role : String) (b : Book)
      (a : Addr)
      → (contains (b.used role) a || contains (explicit address role (of_instances instances)) a)
        ≡ true
      → contains ((mark_instances texts address instances b).used role) a ≡ true
  unfolding mark_instances explicit
  mark_instances-takes [] address role b a here = ground (arith, here)
  mark_instances-takes (r ∷ instances) address role b a here =
      mark_instances-takes instances address role (mark_interfaces texts address r.interfaces b) a (
        ground (
          arith,
          here,
          explicit-append address role a r.interfaces (of_instances instances),
          mark_interfaces-takes r.interfaces address role b a,
        ))

  pub mark_services-takes :
      (services : List Service) (address : Interface → String) (role : String) (b : Book) (a : Addr)
      → (contains (b.used role) a || contains (explicit address role (of_services services)) a)
        ≡ true
      → contains ((mark_services texts address services b).used role) a ≡ true
  unfolding mark_services explicit
  mark_services-takes [] address role b a here = ground (arith, here)
  mark_services-takes (s ∷ services) address role b a here =
      mark_services-takes services address role (mark_instances texts address s.instances b) a (
        ground (
          arith,
          here,
          explicit-append address role a (of_instances s.instances) (of_services services),
          mark_instances-takes s.instances address role b a,
        ))

  -- What a role may not hand out: gateways and explicit addresses.
  abbrev pub reserved :
      (Network → Option Family) → (Interface → String) → String → Deployment → List Addr
  reserved family address role dep =
      gateways family role dep.networks ++ explicit address role (of_services dep.services)

  seed-takes :
      (dep : Deployment) (family : Network → Option Family) (address : Interface → String)
      (role : String) (a : Addr)
      → contains (reserved family address role dep) a ≡ true
      → contains
          ((mark_services texts address dep.services
              (mark_gateways texts family dep.networks empty_book)).used
            role)
          a
        ≡ true
  seed-takes dep family address role a here = mark_services-takes dep.services address role _ a (
      ground (
        arith,
        here,
        contains-append (gateways family role dep.networks)
            (explicit address role (of_services dep.services)) a,
        mark_gateways-takes dep.networks family role empty_book a,
      ))

  -- No address twice, and none that is reserved.
  pub record Apart (family : Network → Option Family) (address : Interface → String) (role : String)
      (dep dep' : Deployment) (a : Addr) : Type 0 where
    pub once :
        NoRepeat (handed texts address role (of_services dep.services) (of_services dep'.services))
    pub clear :
        (contains
            (handed texts address role (of_services dep.services) (of_services dep'.services))
            a
          && contains (reserved family address role dep) a)
        ≡ false

  -- When AllocateInterfaces returns a plan, then for every role and in both families no two
  -- interfaces were filled with the same address, and none with a gateway of the role or an address
  -- that the plan itself gives to an interface of the role.
  pub allocate_interfaces-Apart :
      (dep : Deployment) (role : String) (a : Addr) {dep' : Deployment}
      → allocate_interfaces texts dep ≡ ok dep'
      → Apart (λ n. n.ipv4) (λ i. i.ipv4) role dep dep' a
        × Apart (λ n. n.ipv6) (λ i. i.ipv6) role dep dep' a
  unfolding allocate_interfaces
  allocate_interfaces-Apart dep role a {dep'} h =
      let books : Books = (seed4 texts dep, seed6 texts dep) in
      let (done, made, ran) =
        >>=-ok (allocate_services texts dep.networks dep.services books) _ h in
      let both = services-HandsBoth texts dep.networks role dep.services books ran in
      let four : Apart (λ n. n.ipv4) (λ i. i.ipv4) role dep (record dep { services = done.0 }) a =
        record {
          once = both.four.once;
          clear =
              ground (arith, both.four.new a, seed-takes dep (λ n. n.ipv4) (λ i. i.ipv4) role a);
        } in
      let six : Apart (λ n. n.ipv6) (λ i. i.ipv6) role dep (record dep { services = done.0 }) a =
        record {
          once = both.six.once;
          clear = ground (arith, both.six.new a, seed-takes dep (λ n. n.ipv6) (λ i. i.ipv6) role a);
        } in
      subst
        (λ (x : Deployment).
          Apart (λ n. n.ipv4) (λ i. i.ipv4) role dep x a
          × Apart (λ n. n.ipv6) (λ i. i.ipv6) role dep x a)
        (ok-injective _ _ made) (four, six)
