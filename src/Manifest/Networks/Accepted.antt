-- ===== src/Manifest/Networks/Accepted.antt =====
-- controlplane/internal/manifest/validate.go: what holds of networks that the checks accept.
use vcpe.Common.{
  All-weaken, sym, ap, refl, ◌++◌, [], eq_iff, ◌∷◌, All, subst, List, ◌||◌, not, arith, inr, inl,
  Option-cases, string_eq, true, false, none, ◌==◌, some, ◌≡◌, Option, String,
}
use vcpe.Common.Result.{ok-injective, >>=-ok, fail_if-ok, >>-ok, ok}
use vcpe.Manifest.{
  duplicate_role, DistinctRoles, role_used, Network, pool_reversed, pool_outside, gateway_outside,
  Pool, AddressFamily,
}
use vcpe.Manifest.Networks.{
  has_role, Roles, validate_pools, validate_network, validate_networks, validate_family,
  validate_gateway, validate_pool,
}
use vcpe.Net.{addr_after, prefix_contains, Addr, Prefix}

-- The range of a family parses, and its gateway and its pool lie in it.
pub record FamilyFits (parse_prefix : String → Option Prefix) (parse_addr : String → Option Addr)
    (f : AddressFamily) : Type 0 where
  pub prefix : Prefix
  pub parsed : parse_prefix f.cidr ≡ some prefix
  pub gateway_fits :
      (f.gateway == "") ≡ false
      → (gw : Addr) × (parse_addr f.gateway ≡ some gw) × (prefix_contains prefix gw ≡ true)
  pub pool_fits :
      (pool : Pool)
      → f.pool ≡ some pool
      → (ends : Addr × Addr) × (parse_addr pool.start ≡ some ends.0)
        × (parse_addr pool.end ≡ some ends.1)
        × (prefix_contains prefix ends.0 ≡ true)
        × (prefix_contains prefix ends.1 ≡ true)
        × (addr_after ends.0 ends.1 ≡ false)

module _ (parse_prefix : String → Option Prefix) (parse_addr : String → Option Addr) where
  abbrev pub OptionFits : Option AddressFamily → Type 0
  OptionFits none = Unit
  OptionFits (some f) = FamilyFits parse_prefix parse_addr f

  validate_pool-ok :
      (family role : String) (prefix : Prefix) (pool : Pool)
      → validate_pool parse_prefix parse_addr family role prefix pool ≡ ok tt
      → (ends : Addr × Addr) × (parse_addr pool.start ≡ some ends.0)
        × (parse_addr pool.end ≡ some ends.1)
        × (prefix_contains prefix ends.0 ≡ true)
        × (prefix_contains prefix ends.1 ≡ true)
        × (addr_after ends.0 ends.1 ≡ false)
  unfolding validate_pool
  validate_pool-ok family role prefix pool h = elim (Option-cases (parse_addr pool.start)) [
    | inl bad ↦ cc (simp (bad, validate_pool) at h)
    | inr (start, e) ↦ elim (Option-cases (parse_addr pool.end)) [
      | inl bad ↦ cc (simp (e, bad, validate_pool) at h)
      | inr (end, f) ↦
          let (inside, ordered) = >>-ok _ _ (simp (e, f, validate_pool) at h) in
          let no_gap =
            fail_if-ok (not (prefix_contains prefix start) || not (prefix_contains prefix end))
              (pool_outside family pool role) inside in
          (
            (start, end),
            e,
            f,
            ground (arith, no_gap),
            ground (arith, no_gap),
            fail_if-ok (addr_after start end) (pool_reversed family pool role) ordered,
          )
    ]
  ]

  validate_gateway-ok :
      (family role : String) (prefix : Prefix) (f : AddressFamily)
      → validate_gateway parse_prefix parse_addr family role prefix f ≡ ok tt
      → (f.gateway == "") ≡ false
      → (gw : Addr) × (parse_addr f.gateway ≡ some gw) × (prefix_contains prefix gw ≡ true)
  unfolding validate_gateway
  validate_gateway-ok family role prefix f h given = elim (Option-cases (parse_addr f.gateway)) [
    | inl bad ↦ cc (simp (given, bad, validate_gateway) at h)
    | inr (gw, e) ↦
        let inside =
          fail_if-ok (not (prefix_contains prefix gw))
            (gateway_outside family f.gateway f.cidr role)
            (simp (given, e, validate_gateway) at h) in
        (gw, e, ground (arith, inside))
  ]

  validate_family-ok :
      (family role : String) (fam : Option AddressFamily) (cidrs : List String)
      {next : List Prefix × List String}
      → validate_family parse_prefix parse_addr family role fam cidrs ≡ ok next
      → OptionFits fam
  unfolding validate_family
  validate_family-ok family role none cidrs h = tt
  validate_family-ok family role (some f) cidrs h = elim (Option-cases (parse_prefix f.cidr)) [
    | inl bad ↦ cc (simp (bad, validate_family) at h)
    | inr (prefix, e) ↦
        let (checked, made) = >>-ok _ _ (simp (e, validate_family) at h) in
        let (front, pools) = >>-ok _ _ checked in
        let (new, gateway) = >>-ok _ _ front in
        record {
          prefix = prefix;
          parsed = e;
          gateway_fits = validate_gateway-ok family role prefix f gateway;
          pool_fits = λ pool here. validate_pool-ok family role prefix pool (
              subst
                (λ (o : Option Pool).
                  validate_pools parse_prefix parse_addr family role prefix o ≡ ok tt)
                here pools);
        }
  ]

  -- What one pass of the loop went through.
  validate_network-ok :
      (n : Network) (roles : Roles) (cidrs : List String) {next : Roles × List String}
      → validate_network parse_prefix parse_addr n roles cidrs ≡ ok next
      → (has_role n.role roles ≡ false)
        × (prefixes : List Prefix) × (next.0 ≡ (n.role, prefixes) ∷ roles)
        × OptionFits n.ipv4
        × OptionFits n.ipv6
  unfolding validate_network
  validate_network-ok n roles cidrs {next} h =
      let (front, families) = >>-ok _ _ h in
      let (named, driver) = >>-ok _ _ front in
      let (given, new) = >>-ok _ _ named in
      let (four, rest, found) =
        >>=-ok (validate_family parse_prefix parse_addr "ipv4" n.role n.ipv4 cidrs) _ families in
      let (six, last, found') =
        >>=-ok (validate_family parse_prefix parse_addr "ipv6" n.role n.ipv6 four.1) _ rest in
      (
        fail_if-ok (has_role n.role roles) (duplicate_role n.role) new,
        four.0 ++ six.0,
        ap (λ (x : Roles × List String). x.0) (sym (ok-injective _ _ last)),
        validate_family-ok "ipv4" n.role n.ipv4 cidrs found,
        validate_family-ok "ipv6" n.role n.ipv6 four.1 found',
      )

role_used-All :
    (role : String) (networks : List Network)
    → All (λ n. (role == n.role) ≡ false) networks
    → role_used role networks ≡ false
role_used-All role [] all = refl
role_used-All role (n ∷ networks) all =
    ground (arith, role_used-All role networks all.1, all.0, eq_iff role n.role, eq_iff n.role role)

module _ (parse_prefix : String → Option Prefix) (parse_addr : String → Option Addr) where
  abbrev pub NetworkFits : Network → Type 0
  NetworkFits n =
      OptionFits parse_prefix parse_addr n.ipv4 × OptionFits parse_prefix parse_addr n.ipv6

  validate_networks-new :
      (networks : List Network) (roles : Roles) (cidrs : List String) {result : Roles}
      → validate_networks parse_prefix parse_addr networks roles cidrs ≡ ok result
      → All (λ n. has_role n.role roles ≡ false) networks
        × DistinctRoles networks
        × All NetworkFits networks
  unfolding validate_networks has_role
  validate_networks-new [] roles cidrs h = (tt, tt, tt)
  validate_networks-new (n ∷ networks) roles cidrs h =
      let (next, rest, found) =
        >>=-ok (validate_network parse_prefix parse_addr n roles cidrs) _ h in
      let (new, prefixes, grown, four, six) =
        validate_network-ok parse_prefix parse_addr n roles cidrs found in
      let (others, distinct, fit) = validate_networks-new networks next.0 next.1 rest in
      let fresh : All (λ m. has_role m.role ((n.role, prefixes) ∷ roles) ≡ false) networks =
        subst (λ (z : Roles). All (λ m. has_role m.role z ≡ false) networks) grown others in
      (
        (new, All-weaken _ _ networks (λ m f. (ground (arith, f))) fresh),
        (
          role_used-All n.role networks
              (All-weaken _ _ networks (λ m f. (ground (arith, f))) fresh),
          distinct,
        ),
        ((four, six), fit),
      )

  -- Networks that validateNetworks accepts have distinct roles; every range of theirs parses, and
  -- contains the gateway and both ends of the pool, where these are given, with the pool's end not
  -- before its start.
  pub validate_networks-ok :
      (networks : List Network) {result : Roles}
      → validate_networks parse_prefix parse_addr networks [] [] ≡ ok result
      → DistinctRoles networks × All NetworkFits networks
  validate_networks-ok networks h =
      let (new, distinct, fit) = validate_networks-new networks [] [] h in (distinct, fit)
